-- ===== src/Relay/Publishing.antt =====
-- The loop of apps/api/src/relay/relay.service.ts: its polls, where some are rolled back after they have
-- added jobs to the queue.
pub mod Laws
use payments_processor.Common.{ℕ, Bool, List, [], ◌∷◌, ◌++◌, filter_by}
use payments_processor.Database.{Db}
use payments_processor.Jobs.{PaymentJob}
use payments_processor.Relay.Poll.{poll_once}
use payments_processor.Schedule.{Outcome, returned, thrown}

-- How a poll goes: it commits at a time, or its transaction is rolled back, as where `queue.add` or the
-- update fails, when the queue has taken the jobs that `reached` picks.
pub data Poll : Type 0 where
  commits : (now : ℕ) → Poll
  rolls_back : (reached : PaymentJob → Bool) → (now : ℕ) → Poll

-- The tables, and the jobs that the queue has taken.
abbrev pub Published : Type 0
Published = Db × List PaymentJob

unfoldable pub publishing : (locked : ℕ → Bool) → Poll → Published → Outcome Published
publishing locked (commits now) (db, taken) =
    let (db', jobs) = poll_once locked now db in returned (db', taken ++ jobs)
publishing locked (rolls_back reached now) (db, taken) =
    thrown (db, taken ++ filter_by reached (poll_once locked now db).1)

abbrev pub commits_of : List Poll → List ℕ
commits_of [] = []
commits_of (commits now ∷ ps) = now ∷ commits_of ps
commits_of (rolls_back reached now ∷ ps) = commits_of ps
