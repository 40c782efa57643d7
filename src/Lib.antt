-- ===== src/Lib.antt =====
-- A verification library for the ticket booking service of apps/core-api: reservations, payments, the
-- lock in Redis, and what stands around them.
--
-- Parts. A request has an identity from its access token and a database session of its own. The
-- reservation service holds, cancels, completes and releases seats: each of these takes a lock in Redis
-- that is named by the event, reads the rows under it, writes seats and reservation, commits, and then
-- deletes the hold keys and publishes the new seat states. The payment service records a payment, asks
-- the gateway and completes the reservation. A background task releases the holds that have expired.
--
-- Files, with paths from apps/core-api/src unless they say otherwise:
--   Base, Base/*: lists, texts and Boolean tests that the parts share.
--   Exceptions: exceptions/custom_exceptions.py and the other exceptions that services let through.
--   Models: models/*.py. `Tables` is the database: a list of rows for each table.
--   Env: what is not in the repository, as a record that every service takes: the order in which SQL
--     returns rows, UUIDs, the clock, the random numbers, and a Redis server.
--   Action, Action/Rules: a call as a function on the session's tables and the world outside.
--   Keys, Keys/Distinct: redis/constants.py.    Lock, Lock/*: redis/lock.py. `LockLaws` has
--     what is supposed of Redis, and Lock/Exclusion the interleavings of many processes.
--   Repositories/*: repositories/*.py and the queries and assignments that services write out.
--   Reservations/{Common,Hold,Finish,Release}: services/reservation_service.py. `hold_seats`,
--     `cancel_reservation`, `complete_reservation`, `get_reservation`, `release_expired_holds` and
--     `release_user_holds` keep their names; the block that ends a hold, which the source writes four
--     times, is `finish`. The files beside these hold the proofs.
--   Payments, Payments/*: services/payment_service.py.
--   Requests: dependencies.py (get_db), api/v1/reservations.py, api/v1/payments.py, and the cleanup of
--     main.py. `serve_all` runs a history of requests. Safety and Races: what histories preserve, and
--     what happens where two calls overlap.
--   History/*: what the services promise together. History/Moves is the abstract machine, Calls and
--     Serving its refinement, Frame, Finality, Charges, Exact and Sales what every history keeps.
--   Cleaning/*: the release loops on a Redis that answers and that nobody else writes to. `QuietLaws` has
--     what is supposed of it. Rounds and Sweep follow one round and the loop, Expiry both operations.
--   Catalogue, Catalogue/*: api/v1/events.py, api/v1/seats.py, services/event_service.py and the
--     repositories of events, seats and users, over a record `Json`.
--   Seeds, Seeds/*: database/seed.py. Formats has the numbers in its texts, Grid, Creation, Found, Names,
--     Members and Rerun the proofs.
--   Responses: middleware/error_handler.py.
--   Tokens, Tokens/Roles: auth/token.py, services/token_service.py and the token checks of
--     dependencies.py, over a record `Jwt` for jose.
--   Queue, Queue/*: redis/queue.py, services/queue_service.py and api/v1/queue.py, over a record
--     `SortedSets` for Redis.
--   Limits, Limits/Window: middleware/rate_limiter.py, over a record `Counting` for Redis.
--   Scaling/{Calculator,Windows,Bounds,Plans}: prediction/resource_calculator.py and
--     services/prediction_service.py, over `Floats` and `Forecasting`. Scaling/Replies:
--     api/v1/prediction.py.
--   Scaling/{Prescale,Scaler}: services/scaling_service.py and services/scaler_service.py, over
--     `Autoscaler` and `Cluster` for Kubernetes.
--   Tests/*: runs at concrete inputs.
--
-- Conventions. An identifier is the 128-bit number of a UUID, an instant is a number of microseconds, a
-- price is in cents, and a text is a list of code points. A session reads its own uncommitted writes;
-- the release loops check the objects that SQLAlchemy keeps from an earlier query, as they were loaded
-- (`identity`, `load`); every other check reads a row for the first time or after a commit, which
-- expires the objects. The time zones that the driver attaches to instants are not modelled. A query without ORDER BY returns its rows in an order that `Env`
-- chooses, of which only is known that it is a permutation. The insert of a reservation or a payment is
-- checked by the primary key and the foreign keys. Redis may fail at each request (`reach`), and the
-- Lua script that releases the lock is one step. Loops are structural; the lock's retries go by the
-- number of attempts left, 3 as in the source. The only fuel is that of `digits`, which writes a number
-- in a base: the number itself, which is shown to be enough.
-- The stream of the queue has no bound in the source: `event_stream` runs a given number of its rounds,
-- and what is said of it is said for every number. The instant in a token is in whole seconds, as jose
-- stores it. An event is looked up for a plan by the text of its identifier. A header is Latin-1 text.
-- Not modelled: metrics and log lines, the wiring of the application, migrations, the neural network of
-- the forecaster, and the services in other languages.
pub mod Base
pub mod Exceptions
pub mod Models
pub mod Env
pub mod Action
pub mod History
pub mod Cleaning
pub mod Seeds
pub mod Catalogue
pub mod Keys
pub mod Lock
pub mod Repositories
pub mod Reservations
pub mod Payments
pub mod Requests
pub mod Responses
pub mod Tokens
pub mod Queue
pub mod Limits
pub mod Scaling
pub mod Safety
pub mod Races
pub mod Tests
