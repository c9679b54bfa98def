-- ===== src/Relay/Poll/Laws.antt =====
-- Polls of the relay, apps/api/src/relay/relay.service.ts.
use payments_processor.Common.{
  ℕ, zero, suc, ◌+◌, ◌*◌, ◌≤◌, ◌≡◌, refl, sym, ap, ◌∙◌, inl, inr, Bool, true, ◌&&◌, not, List, [],
  ◌∷◌, ◌++◌, map, filter_by, take, drop, mem, length, sort_asc, arith, Bool-cases, is_empty,
  take-append-drop,
}
use mathlib.Core.List.{map-append}
use payments_processor.Common.Table.{HasUniqueKeys, update_where, update_where-HasUniqueKeys}
use payments_processor.Common.Paging.Order.{filter_by-HasUniqueKeys}
use payments_processor.Common.Sorting.{sort_asc-rest}
use payments_processor.Database.{Outbox, Db}
use payments_processor.Jobs.{PaymentJob}
use payments_processor.Audit.{notices_of}
use payments_processor.Audit.Effects.{Effect, marked}
use payments_processor.Relay.Poll.{is_unpublished, select_rows, published_job, published, poll_once}

-- The row may be taken by this relay.
abbrev pub is_waiting : (ℕ → Bool) → Outbox → Bool
is_waiting locked o = is_unpublished o && not (locked o.id)

-- The submissions that wait for this relay, in the order of time.
unfoldable pub queue_of : (ℕ → Bool) → Db → List Outbox
queue_of locked db = sort_asc (λ o. o.created_at) (filter_by (is_waiting locked) db.outbox)

notices_of-published :
    (p : Outbox → Bool) (now id : ℕ) (os : List Outbox)
    → notices_of id (update_where p (published now) os) ≡ notices_of id os
notices_of-published p now id [] = refl
notices_of-published p now id (o ∷ os) = ground (arith, notices_of-published p now id os)

pub poll_once-Effect :
    (locked : ℕ → Bool) (now : ℕ) (db : Db) → Effect db (poll_once locked now db).0
unfolding poll_once
poll_once-Effect locked now db =
    elim (Bool-cases (is_empty (map (λ (o : Outbox). o.id) (select_rows locked db)))) [
      | inl nothing ↦ rw nothing (marked refl refl (λ id. refl))
      | inr some_rows ↦
          rw some_rows (marked refl refl (λ id. notices_of-published _ now id db.outbox))
    ]

-- What an update of the chosen rows leaves waiting.
waiting-published :
    (locked : ℕ → Bool) (ids : List ℕ) (now : ℕ) (os : List Outbox)
    → filter_by (is_waiting locked) (update_where (λ o. mem ids o.id) (published now) os)
      ≡ filter_by (λ o. not (mem ids o.id)) (filter_by (is_waiting locked) os)
waiting-published locked ids now [] = refl
waiting-published locked ids now (o ∷ os) = ground (arith, waiting-published locked ids now os)

chosen_ids : (ℕ → Bool) → Db → List ℕ
chosen_ids locked db = map (λ (o : Outbox). o.id) (select_rows locked db)

update_where-none_chosen :
    (ids : List ℕ) (now : ℕ) (os : List Outbox)
    → is_empty ids ≡ true
    → update_where (λ o. mem ids o.id) (published now) os ≡ os
update_where-none_chosen [] now [] h = refl
update_where-none_chosen [] now (o ∷ os) h = ap (λ l. o ∷ l) (update_where-none_chosen [] now os h)
update_where-none_chosen (x ∷ ids) now os h = cc

poll_once-outbox :
    (locked : ℕ → Bool) (now : ℕ) (db : Db)
    → (poll_once locked now db).0.outbox
      ≡ update_where (λ o. mem (chosen_ids locked db) o.id) (published now) db.outbox
unfolding poll_once chosen_ids
poll_once-outbox locked now db =
    elim (Bool-cases (is_empty (map (λ (o : Outbox). o.id) (select_rows locked db)))) [
      | inl nothing ↦ rw nothing (sym (update_where-none_chosen _ now db.outbox nothing))
      | inr some_rows ↦ rw some_rows refl
    ]

pub poll_once-jobs :
    (locked : ℕ → Bool) (now : ℕ) (db : Db)
    → (poll_once locked now db).1 ≡ map published_job (take 100 (queue_of locked db))
unfolding poll_once queue_of select_rows
poll_once-jobs locked now db =
    elim (Bool-cases (is_empty (map (λ (o : Outbox). o.id) (select_rows locked db)))) [
      | inl nothing ↦ rw nothing refl
      | inr some_rows ↦ rw some_rows refl
    ]

-- One poll takes the first hundred of the queue.
pub poll_once-queue_of :
    (locked : ℕ → Bool) (now : ℕ) (db : Db)
    → HasUniqueKeys (λ (o : Outbox). o.id) db.outbox
    → queue_of locked (poll_once locked now db).0 ≡ drop 100 (queue_of locked db)
unfolding queue_of chosen_ids select_rows
poll_once-queue_of locked now db unique =
    let waiting : List Outbox = filter_by (is_waiting locked) db.outbox in
    ap (λ os. sort_asc (λ o. o.created_at) (filter_by (is_waiting locked) os))
      (poll_once-outbox locked now db)
    ∙ ap (sort_asc (λ o. o.created_at))
        (waiting-published locked (chosen_ids locked db) now db.outbox)
    ∙ sort_asc-rest (λ o. o.created_at) (λ o. o.id) 100 waiting
        (filter_by-HasUniqueKeys (λ o. o.id) (is_waiting locked) db.outbox unique)

pub poll_once-HasUniqueKeys :
    (locked : ℕ → Bool) (now : ℕ) (db : Db)
    → HasUniqueKeys (λ (o : Outbox). o.id) db.outbox
    → HasUniqueKeys (λ (o : Outbox). o.id) (poll_once locked now db).0.outbox
poll_once-HasUniqueKeys locked now db unique =
    rw (poll_once-outbox locked now db)
      (update_where-HasUniqueKeys (λ o. o.id) _ (published now) (λ r. refl) db.outbox unique)

-- Polls at the given times, with the jobs that they add.
pub polls : (ℕ → Bool) → (nows : List ℕ) → Db → Db × List PaymentJob
polls locked [] db = (db, [])
polls locked (now ∷ nows) db =
    let (db', jobs) = poll_once locked now db in
    let (db'', more) = polls locked nows db' in (db'', jobs ++ more)

pub nil_of_length : {A : Type 0} → (xs : List A) → length xs ≤ 0 → xs ≡ []
nil_of_length [] h = refl
nil_of_length (x ∷ xs) h = absurd (omega arith)

pub length-drop :
    {A : Type 0} → (n m : ℕ) (xs : List A) → length xs ≤ n + m → length (drop n xs) ≤ m
length-drop zero m xs h = omega arith
length-drop (suc n) m [] h = omega arith
length-drop (suc n) m (x ∷ xs) h = length-drop n m xs (omega arith)

-- Where no two outbox rows share an id, polls of a relay that holds its rows alone publish the
-- queue in its order and each row once: after enough polls, one for each hundred rows, every
-- submission that waited has been added as one job and none waits any more.
pub polls-drain :
    (locked : ℕ → Bool) (nows : List ℕ) (db : Db)
    → HasUniqueKeys (λ (o : Outbox). o.id) db.outbox
    → length (queue_of locked db) ≤ 100 * length nows
    → ((polls locked nows db).1 ≡ map published_job (queue_of locked db))
      × (queue_of locked (polls locked nows db).0 ≡ [])
unfolding polls
polls-drain locked [] db unique enough =
    let none_wait : queue_of locked db ≡ [] = nil_of_length (queue_of locked db) (omega arith) in
    (sym (ap (map published_job) none_wait), none_wait)
polls-drain locked (now ∷ nows) db unique enough =
    let db' : Db = (poll_once locked now db).0 in
    let q : List Outbox = queue_of locked db in
    let rest : queue_of locked db' ≡ drop 100 q = poll_once-queue_of locked now db unique in
    let (jobs, done) =
      polls-drain locked nows db' (poll_once-HasUniqueKeys locked now db unique)
        (rw rest (length-drop 100 (100 * length nows) q (omega arith))) in
    (
      ap (λ l. l ++ (polls locked nows db').1) (poll_once-jobs locked now db)
          ∙ ap (λ l. map published_job (take 100 q) ++ l) (jobs ∙ ap (map published_job) rest)
          ∙ sym (map-append published_job (take 100 q) (drop 100 q))
          ∙ ap (map published_job) (take-append-drop 100 q),
      done,
    )
