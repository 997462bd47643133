-- ===== src/Lib.antt =====
-- The adapter between NautilusTrader and the cTrader Open API: its venue model, the balance at a
-- checkpoint, the account's history, the pacing of requests and the closing of live bars.
--
-- The execution client (src/nautilus_ctrader/execution.py) hands every execution event of the
-- broker to the venue model, class `VenueBook` (src/nautilus_ctrader/common/venue_book.py), with
-- what the node waits on, class `OperationsInFlight` (common/operations.py). The model keeps the
-- account's positions, their protective legs and their orders, and answers with records: order
-- events, external orders, activities and notices. A snapshot rebuilds it (`load`).
--
-- All requests go through the scheduler, which paces them. The reads of the history ask for deals
-- page by page through it; the balance at a checkpoint is rebuilt from what they find. The data
-- client (src/nautilus_ctrader/data.py) gives each live bar type a closer, and holds its symbols'
-- subscriptions in the registry, which a session restores after a reconnect.
--
-- Which file models what (paths below src/nautilus_ctrader/):
--   OrderRecord      common/order_record.py: the node's record in an order's label and comment.
--   LegId            common/venue_records.py: `leg_venue_order_id`, `parse_leg_venue_order_id`.
--   Messages         messages/OpenApiMessages.proto and OpenApiModelMessages.proto: the fields
--                    that the venue model reads.
--   Records          common/venue_records.py: the records; Records/Prices: prices and levels.
--   Operations       common/operations.py: `OperationsInFlight`; Operations/Brackets: the pending
--                    brackets.
--   VenueState       the fields of `VenueBook`, `_Position` and `_Leg`, and the steps of a handler.
--   Venue/Foreign    common/foreign_legs.py: the legs of positions that the node did not open.
--   Venue/Legs       `_level_changes`, `_cancel_legs`, `_closed_by`, `_adopt`.
--   Venue/Sync       `_position_for`, `_sync`, `_key`.
--   Venue/External   `_external_report`, `_external_event`, `_keep_open_order`.
--   Venue/Opening    `_opening`, `_entry_event`, `_raises`.
--   Venue/Protective `_protective`, `_triggered`.
--   Venue/Closing    `_closing`, `_node_close`.
--   Venue/Unloaded   `_unloaded`, `_track_unloaded`.
--   Venue/Apply      `apply`, `_handle`, `trailing_stop_moved`.
--   Venue/Orders     `opening_orders`, `entry_of`.
--   Venue/Load       `load`.
--   Venue/Found      `entry_found`, `awaits_close`, `end_keep`, `closed_in_reconciliation`.
--   Venue/Queries    the questions, `match_close`, `cancel_leg`, `reject_legs`.
--   BalanceHistory   common/balance_history.py: the changes of a balance, the balance at a
--                    checkpoint; BalanceHistory/Checkpoint: the checkpoints of a time zone.
--   History          common/history.py: paged reads of deals and orders, weekly windows.
--   Scheduler        common/rate_limit.py: the groups of requests and their dispatcher;
--                    Scheduler/Submit: the way of one request; Scheduler/Steps: sequences
--                    of events.
--   BarCloser        common/bars.py: `BarCloser`; BarCloser/Steps: its backfill, its resolver and
--                    sequences of events.
--   Codec            common/codec.py and `_read_loop` of common/connection.py: frames; the error
--                    messages.
--   Subscriptions    common/subscriptions.py: what consumers hold and a session restores;
--                    Subscriptions/Steps: sequences of events.
--   Prelude          numbers, lists, dicts, sorting and texts that these share; Tests: concrete
--                    inputs.
--
-- How state is modelled. A method is a function from the state to the new state and its records.
-- A handler works on one position, which the book shares with it or not; the position travels
-- beside the book in a `Turn` and is put back at the end, after a raise too (`Outcome`). A dict is
-- an association list in insertion order, a set is a list. A time of -1 is `none`; ids, times and
-- volumes are natural numbers, and a subtraction that stops at 0 is a `max(..., 0)` of the source.
-- A text is the list of its code points, a price an integer in units of the last decimal of its
-- symbol. A double is its shortest decimal form, an infinity of a sign, or no number.
--
-- Bounds. The search for a free generation of a leg's id runs on fuel, the field `generations` of
-- `Callbacks`; any bound that reaches a generation that Nautilus does not hold closed is enough.
-- The loop of `weekly_windows` and the bisection of `_occurrence` have as much fuel as there is to
-- divide, which each round makes less; a read of pages has the source's `max_pages`. All other
-- loops are over finite lists.
--
-- Tasks. A coroutine is cut at its awaits: each part is a function of the state, and a sequence of
-- events applies them in any order, with other events between. The scheduler's times are
-- milliseconds, the closer's whole seconds later than one of its periods.
--
-- Parameters. The function that sends a request of the history, the time zone, and what the
-- queue and the venue answer to an attempt are arguments. The price precision of a symbol, the
-- test whether Nautilus holds an order closed and the account's money digits are functions of
-- `Callbacks`, as the constructor takes them.
--
-- Not modelled: sockets, tasks, clocks, logging, the framework's own types, generated message
-- classes, JSON, and the components around these (the task that writes the balance checkpoint,
-- reconciliation, account, session, market data, providers, configuration,
-- authorisation).
pub mod Prelude
pub mod OrderRecord
pub mod LegId
pub mod Messages
pub mod Records
pub mod Operations
pub mod VenueState
pub mod Venue
pub mod BalanceHistory
pub mod History
pub mod Scheduler
pub mod BarCloser
pub mod Codec
pub mod Subscriptions
pub mod Tests
