-- ===== src/Task.antt =====
-- nav2_tasks: the messages that a task's server and client exchange
-- (nav2_tasks/include/nav2_tasks/task_status.hpp).
pub mod Server
pub mod Client
pub mod Protocol
pub mod Forgets
mod Tests
use rosnavigation2copy.Prelude.{ℕ}

pub data TaskStatus : Type 0 where
  succeeded failed running canceled : TaskStatus

-- The values of nav2_msgs/msg/TaskStatus.msg.
abbrev pub code : TaskStatus → ℕ
code succeeded = 0
code failed = 1
code running = 2
code canceled = 3

-- A message of the topic of results, and one of the topic of statuses.
pub data Message (R : Type 0) : Type 0 where
  result : R → Message R
  status : ℕ → Message R
