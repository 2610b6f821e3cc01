-- ===== src/Lib.antt =====
-- Fanuc driver: the C program of driver/src, which reads the state of a CNC through the FOCAS library
-- and sends what has changed to a Kafka topic, as a model whose definitions can be run, and theorems
-- about it.
--
-- The program. main.c (and debug.c, which prints instead of sending) connects to a control, and then
-- goes round: each round calls the ten checks of check.c in order. A check takes a reading of
-- data.c into a struct of data.h, compares it with the last one, which it keeps in a static pointer,
-- and adds an item to the object `updates` for what has changed, and the reading's duration to the
-- object `meta`. The round prints both objects to one text, sends it and sleeps for the rest of the
-- interval. config.c reads the settings.
--
-- The files:
-- - Prelude, with Prelude/: names of the library, the lemmas on lists and integers, and the monad
--   `Exec`. A C function that may fail returns an `Outcome`: `returns`, `fails` (it returned 1 or went
--   to `cleanup` with an error), `hangs` (the fuel ran out) or `faults` (an access outside an
--   array, or through NULL).
--   Prelude/Total has the predicates on the outcomes: `Ends` (returns or fails, and the
--   result has a property), `Returns`, `OnReturn`.
-- - CString: C strings, as lists of bytes with what follows the NUL, and the functions of string.h
--   and stdio.h that the driver calls. CString/Hex, CString/Number: "%08lx", "%02hd" and atoi.
-- - Clock: `struct timespec` and the duration `tt` (data.c, main.c).
-- - Focas: the functions and structs of fwlib32.h that data.c calls, a record of parameters: each takes
--   the handle and the state of the world and returns a code, what it wrote and the next world.
-- - Types: the structs of driver/src/data.h.
-- - Env: the parameters of a run: FOCAS, the clock, floating point, and what malloc and the stack hold
--   before they are written. Env/Reader: the static variables of driver/src/data.c.
-- - Readings, with Readings/: the get functions of driver/src/data.c, and `setupConnection`.
--   The laws of a reading stand in the modules below its own.
-- - Report: cJSON's objects as lists of items, in the order in which they are added. Report/Latest: what a
--   consumer sees who keeps the latest item of each key.
-- - Checks, with Checks/: driver/src/check.c. Checks/State has the driver's state: the globals of
--   main.c, the static variables of the check functions and a count of the structs on the heap.
--   Checks/Sync, with its children: a consumer who keeps the latest item of each key is up to date,
--   each check by itself and a round of all; Report/Frame: which keys a check can touch.
--   Checks/Dynamic/Arrays: the same for the arrays. Checks/Quiet, Checks/Gates: readings that bring
--   nothing new, and none. Checks/Alarm, Checks/Status/Message, Checks/Status/Estop: where the
--   consumer is not up to date.
-- - Process: the state of the two programs, what they write, and what main.c takes from librdkafka,
--   cJSON's printing and the signal handler; `cleanup` of data.c, which runs as a program ends.
--   Process/Start: where they start; Process/Loop: the loop of both; Process/Exits and Process/Parts:
--   rules for the way they end.
-- - Tick, Main: `loop_tick` (Tick/Keeps: a rule for what all its checks keep) and the rounds of
--   driver/src/main.c. Main/Program: the rest of its `main`. Main/Rounds: rules for the end of a
--   round; Main/History, Main/Delivery, Main/Keys: what a run's messages carry; Main/Exit: how a run
--   ends; Main/Leaks: what it loses on the heap. Config: driver/src/config.c. Debug, with Debug/:
--   driver/src/debug.c.
-- - Examples: a control to run the model on, and the theorems at concrete inputs.
--
-- Machine integers. The driver is built with -m32: a `long` has 32 bits. Fields of structs are
-- integers as FOCAS delivers them; where the code computes, or stores a long in a short, the
-- wrap-around is written out.
--
-- Fuel. The loops of getMachineProgramHeader and getMachineProgramContents call the upload function as
-- long as it answers EW_BUFFER, and nothing in the program bounds that; they take fuel, and `hangs` is
-- the outcome where it does not suffice. The loop of main.c takes the number of rounds as its fuel. All
-- other loops are recursions on a list or a counter.
--
-- Not modelled: the libraries in driver/external (parameters), what the checks, the readings
-- and `setupConnection` print themselves, when the signal handler runs (the parameter `running_condition` reads its flag), the write of
-- the setting `minimum_polling_interval` into the constant `minimum_interval` (the model keeps the two
-- apart), and the other programs of the repository, which are not in C.
pub mod Prelude
pub mod CString
pub mod Clock
pub mod Focas
pub mod Types
pub mod Env
pub mod Readings
pub mod Report
pub mod Checks
pub mod Tick
pub mod Config
pub mod Process
pub mod Main
pub mod Debug
mod Examples
