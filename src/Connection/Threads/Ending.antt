-- ===== src/Connection/Threads/Ending.antt =====
-- How a connection of src/connection.rs comes to its end.
use blitz_broker.Common.{none, List, [], ◌∷◌, ◌++◌, nat_eq, list_eq}
use blitz_broker.Connection.{writer_loop}
use blitz_broker.Broker.{OutboundEvent}
use blitz_broker.Connection.Threads.{finished, writes, Act, Line}
use blitz_broker.Connection.Threads.Reports.{Reports}

-- As many successful turns of the writer's loop as there are events, and one that finds the end.
abbrev pub writes_all : List OutboundEvent → List Act
writes_all [] = writes none ∷ []
writes_all (event ∷ events) = writes none ∷ writes_all events

-- The line at its end: nothing is queued, and all that was is written.
abbrev pub ended_line : Line → Line
ended_line l = record l {
  queue = record (l.queue) { items = [] };
  writer = finished;
  wire = l.wire ++ writer_loop l.queue.items;
}
