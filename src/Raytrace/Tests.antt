-- ===== src/Raytrace/Tests.antt =====
-- Runs of a line over a map of 4 by 2 cells.
use rosnavigation2copy.Prelude.{arith}
use rosnavigation2copy.Prelude.Int.{pos, ◌-ℤ◌}
use rosnavigation2copy.Platform.{whole}
use rosnavigation2copy.Raytrace.{raytrace_line, scale_of}
use rosnavigation2copy.Raytrace.Lines.{Traces, raytrace_line-Traces}

raytrace_line-Traces_example :
    Traces 4 2 0 1 3 0
      (λ n.
        whole.to_u32 (
          whole.mul (scale_of whole (pos 3 -ℤ pos 0) (pos 0 -ℤ pos 1) 4294967295) (whole.of_nat n)))
      (raytrace_line whole 4 0 1 3 0 4294967295)
raytrace_line-Traces_example =
    raytrace_line-Traces 4 2 0 1 3 0 (omega arith) (omega arith) (omega arith) (omega arith)
      (omega arith) whole 4294967295 (omega arith) (omega arith)
