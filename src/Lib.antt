-- ===== src/Lib.antt =====
-- Verification of the navigation stack: its cost maps, the layers on them, the queue of the wave
-- over a map, the cells of a line, the oscillation critic, the choice of a trajectory, the wave of
-- the global planner, the histogram of poses of the particle filter and the protocol of tasks.
--
-- The robot's surroundings are a cost map, a row-major array of bytes with a place in the world.
-- The layers of a map each keep one of their own and paint it, within a window, into the master
-- map. The local planner's critics read the master map: they walk over it by lines and by waves
-- ordered with a queue of bins, and the oscillation critic keeps the robot from turning back and
-- forth. The local planner prunes the global plan behind the robot and picks the trajectory that
-- its critics score lowest. The global planner spreads a wave of potentials over the costs, from
-- buffers of pending cells, and the particle filter weighs the cells of its poses in a k-d tree.
-- Planner, controller and navigators command each other by tasks: a client sends a command over a
-- topic, a server executes it in a worker thread, and answers with a status and a result.
--
-- Which file models which part:
--   Prelude        the names, lists, 32-bit and signed numbers and loops that the others share.
--   Platform       what C++ supplies: `double` (Floats) and the memory of new[] (Memory).
--   Grid           an array of cells read and written row by row, and what a loop over a window does.
--   Costmap        nav2_costmap_2d/src/costmap_2d.cpp and include/nav2_costmap_2d/costmap_2d.hpp:
--                  getIndex is get_index, resetMap reset_map, copyMapRegion copy_map_region,
--                  updateOrigin update_origin, operator= assign, and so on in the same way.
--   Raytrace       raytraceLine and bresenham2D of the same header, as the list of the offsets visited.
--   Polygon        setConvexPolygonCost, polygonOutlineCells and convexFillCells of the same class.
--   Layer          nav2_costmap_2d/src/costmap_layer.cpp: the four updates of the master map, and
--                  the bounds (touch, addExtraBounds, useExtraBounds).
--   Queue          nav2_dwb_controller/costmap_queue/include/costmap_queue/map_based_queue.hpp: the
--                  std::map of bins is an association list in order of its keys, whose comparison is
--                  the interface Priority; an iterator is the key that it is at.
--   Wave           nav2_dwb_controller/costmap_queue/src/costmap_queue.cpp and
--                  limited_costmap_queue.cpp: the wave over the cells of a map.
--   Layered        nav2_costmap_2d/src/layered_costmap.cpp: updateMap and resizeMap, over layers as
--                  parameters.
--   Static         nav2_costmap_2d/plugins/static_layer.cpp: the layer that shows a served map.
--   Inflation      nav2_costmap_2d/plugins/inflation_layer.cpp and its header: the std::map of bins
--                  is a list of bins in the order of their keys, from the iterator on.
--   Line           nav2_dwb_controller/dwb_critics/include/dwb_critics/line_iterator.hpp.
--   Oscillation    nav2_dwb_controller/dwb_critics/src/oscillation.cpp and its header.
--   NavFn          nav2_navfn_planner/src/navfn.cpp: the arrays of the navigation function, and the
--                  wave that fills in its potentials, by Dijkstra's method and by A*.
--   KdTree         nav2_util/src/pf/pf_kdtree.c: the histogram of poses of the particle filter.
--   Params         nav2_dynamic_params/src/dynamic_params_validator.cpp.
--   ArrayParser    nav2_costmap_2d/src/array_parser.cpp: parseVVF, on characters as codes.
--   Planner        nav2_dwb_controller/dwb_core/src/dwb_core.cpp: coreScoringAlgorithm and
--                  scoreTrajectory, and illegal_trajectory_tracker.cpp. Critics and the generator
--                  of trajectories are parameters.
--   MapGrid        nav2_dwb_controller/dwb_critics/src/map_grid.cpp: the critic that scores poses by
--                  the values of a grid.
--   Plan           the same dwb_core.cpp: transformGlobalPlan, over transforms as parameters.
--   Task           nav2_tasks/include/nav2_tasks/task_server.hpp (Task.Server), task_client.hpp
--                  (Task.Client) and task_status.hpp; Task.Protocol joins the two.
-- A child module is named for what it proves, and each Tests runs the models.
--
-- How the models read the code:
--   * A C++ object is a record of its members, and an operation returns the new record. A fault, such
--     as an access out of bounds or through a null pointer, is `none`; the empty list of cells stands
--     for the null pointer. An exception is a value of its own, or `none` where nothing else is.
--   * unsigned int is a number below 2 ^ 32, with `%` written out where the code can wrap around; a
--     byte is a number below 2 ^ 8. int is an integer without bound: coordinates of a map and their
--     differences do not overflow. Where the code makes an int of an unsigned int it is `to_signed`,
--     which is negative from 2 ^ 31 on: hence the bound on the sides of a map in some theorems. The
--     window of an update is unsigned, since updateMap clips it.
--   * `double` is any type with the operations of Floats. A theorem that needs a law of its
--     arithmetic takes it as a hypothesis: ExactCounts for the lines of a polygon, AtRest for the critic,
--     an Ordered for the scores and one for the bounds of the static layer.
--   * The loop over the rows of resetMap runs on fuel, the end of the window and one more: it stops
--     when the row reaches that end, which it does one row at a time. The other loops recur on their
--     counters and lists. parseVVF runs on fuel, a round for each character and one for the end,
--     which is enough since a round takes a character. A propagation of NavFn runs for at most as
--     many cycles as the code gives it. visit_cells, the loop of a client of the wave, runs on fuel, one
--     more than the cells left to visit: each round takes one of them. The loops of the inflation
--     layer run on fuel, 14 rounds for each cell of the map and one more: a round takes a queued cell
--     or moves to the next bin, and a cell queues its four neighbours once.
--   * The sort of convexFillCells runs on fuel, two rounds for each pair of cells and one for each cell:
--     a swap mends a pair in the wrong order and goes back by one cell. A column runs on the cells.
--   * Threads are steps of a relation that interleave (Task.Server.Step); the mutex that the worker
--     holds is the premise of the step that would need it. A wait takes what arrives meanwhile as a
--     list, and the clock's readings are arguments.
--
-- Not modelled: ROS itself (topics, parameters, transforms, logging), destructors and mutexes that
-- guard whole operations. The layers that read sensors, the footprints, the geometry of trajectories,
-- calcPath of NavFn and the particle filter are floating-point geometry and statistics, of which the
-- models would only name the operations. The map server is file and image input, and the behaviour
-- trees join a third-party library to the task clients. pf_kdtree_cluster labels the leaves in the
-- order of the array of nodes, which the tree of the model leaves out.
pub mod Prelude
pub mod Grid
pub mod Platform
pub mod Costmap
pub mod Raytrace
pub mod Polygon
pub mod Layer
pub mod Queue
pub mod Oscillation
pub mod Task
pub mod Line
pub mod Wave
pub mod Layered
pub mod Static
pub mod Inflation
pub mod KdTree
pub mod NavFn
pub mod ArrayParser
pub mod Params
pub mod Planner
pub mod MapGrid
pub mod Plan
