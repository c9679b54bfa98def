-- ===== src/Relay/Publishing/Laws.antt =====
-- What the loop of apps/api/src/relay/relay.service.ts gets done, errors included.
use mathlib.Core.Path.{subst}
use mathlib.Core.List.{map-append, append_assoc, append-nil}
use payments_processor.Common.{
  ℕ, ◌*◌, ◌≤◌, ◌≡◌, refl, sym, ap, ◌∙◌, arith, Bool, List, [], ◌∷◌, ◌++◌, map, filter_by, take,
  drop, length, take-append-drop, some,
}
use payments_processor.Common.Table.{HasUniqueKeys}
use payments_processor.Database.{Outbox, Db}
use payments_processor.Jobs.{PaymentJob}
use payments_processor.Relay.Poll.{published_job, poll_once}
use payments_processor.Relay.Poll.Laws.{
  queue_of, poll_once-queue_of, poll_once-HasUniqueKeys, poll_once-jobs, nil_of_length, length-drop,
}
use payments_processor.Relay.Publishing.{
  Poll, commits, rolls_back, Published, publishing, commits_of,
}
use payments_processor.Schedule.{Service, Event, handle_all}
use payments_processor.Schedule.Laws.{IsAlive, inputs_of, ran, runs, run-IsAlive}

-- The first list is left of the second where some elements are dropped.
pub data Sublist {ℓ} {A : Type ℓ} : List A → List A → Type ℓ where
  done : Sublist [] []
  skip : {xs ys : List A} (y : A) → Sublist xs ys → Sublist xs (y ∷ ys)
  keep : {xs ys : List A} (y : A) → Sublist xs ys → Sublist (y ∷ xs) (y ∷ ys)

module _ {ℓ} {A : Type ℓ} where
  Sublist_refl : (xs : List A) → Sublist xs xs
  Sublist_refl [] = done
  Sublist_refl (x ∷ xs) = keep x (Sublist_refl xs)

  Sublist_trans : {ys zs : List A} → Sublist ys zs → {xs : List A} → Sublist xs ys → Sublist xs zs
  Sublist_trans done p = p
  Sublist_trans (skip z q) p = skip z (Sublist_trans q p)
  Sublist_trans (keep y q) (skip _ p) = skip y (Sublist_trans q p)
  Sublist_trans (keep y q) (keep _ p) = keep y (Sublist_trans q p)

  skip_all : (xs ys : List A) → Sublist ys (xs ++ ys)
  skip_all [] ys = Sublist_refl ys
  skip_all (x ∷ xs) ys = skip x (skip_all xs ys)

  skip_middle : (xs ys zs : List A) → Sublist (xs ++ zs) ((xs ++ ys) ++ zs)
  skip_middle [] ys zs = skip_all ys zs
  skip_middle (x ∷ xs) ys zs = keep x (skip_middle xs ys zs)

-- The queue is published, in its order, after what the job queue had taken before.
pub record IsDrained (locked : ℕ → Bool) (before after : Published) : Type 0 where
  pub nothing_waits : queue_of locked after.0 ≡ []
  pub all_taken : Sublist (before.1 ++ map published_job (queue_of locked before.0)) after.1

rolled_back-IsDrained :
    (locked : ℕ → Bool) (db : Db) (taken extra : List PaymentJob) (after : Published)
    → IsDrained locked (db, taken ++ extra) after
    → IsDrained locked (db, taken) after
rolled_back-IsDrained locked db taken extra after h = record {
  nothing_waits = h.nothing_waits;
  all_taken = Sublist_trans h.all_taken (skip_middle taken extra _);
}

committed-IsDrained :
    (locked : ℕ → Bool) (now : ℕ) (db : Db) (taken : List PaymentJob) (after : Published)
    → HasUniqueKeys (λ (o : Outbox). o.id) db.outbox
    → IsDrained locked ((poll_once locked now db).0, taken ++ (poll_once locked now db).1) after
    → IsDrained locked (db, taken) after
committed-IsDrained locked now db taken after unique h =
    let q = queue_of locked db in
    let parts : (taken ++ (poll_once locked now db).1)
          ++ map published_job (queue_of locked (poll_once locked now db).0)
        ≡ taken ++ map published_job q =
      rw
        (
          poll_once-jobs locked now db,
          poll_once-queue_of locked now db unique,
          append_assoc taken (map published_job (take 100 q)) (map published_job (drop 100 q)),
          ← map-append published_job (take 100 q) (drop 100 q),
          take-append-drop 100 q,
        )
        refl in
    record {
      nothing_waits = h.nothing_waits;
      all_taken = subst (λ l. Sublist l after.1) parts h.all_taken;
    }

ran-IsDrained :
    (locked : ℕ → Bool) (ps : List Poll) (db : Db) (taken : List PaymentJob)
    → HasUniqueKeys (λ (o : Outbox). o.id) db.outbox
    → length (queue_of locked db) ≤ 100 * length (commits_of ps)
    → IsDrained locked (db, taken) (ran (publishing locked) ps (db, taken))
unfolding publishing
ran-IsDrained locked [] db taken unique enough =
    let none_wait : queue_of locked db ≡ [] = nil_of_length (queue_of locked db) (omega arith) in
    record {
      nothing_waits = none_wait;
      all_taken = rw (none_wait, append-nil taken) (Sublist_refl taken);
    }
ran-IsDrained locked (commits now ∷ ps) db taken unique enough =
    let rest = poll_once-queue_of locked now db unique in
    committed-IsDrained locked now db taken _ unique (
      ran-IsDrained locked ps (poll_once locked now db).0 (taken ++ (poll_once locked now db).1)
        (poll_once-HasUniqueKeys locked now db unique)
        (rw rest
          (length-drop 100 (100 * length (commits_of ps)) (queue_of locked db) (omega arith))))
ran-IsDrained locked (rolls_back reached now ∷ ps) db taken unique enough =
    rolled_back-IsDrained locked db taken (filter_by reached (poll_once locked now db).1) _ (
      ran-IsDrained locked ps db (taken ++ filter_by reached (poll_once locked now db).1) unique
        enough)

-- Whatever polls are rolled back and whichever jobs the queue has taken of them: where no two outbox
-- rows share an id and enough of the polls commit, one for each hundred rows, the loop of a relay that
-- holds its rows alone comes through these polls. Then no submission waits any more, and the queue
-- has taken the job of each that waited, in their order, though it may have taken jobs more than once.
pub publishing_drains :
    (locked : ℕ → Bool) (ps : List Poll) (s : Service Published)
    → IsAlive s
    → HasUniqueKeys (λ (o : Outbox). o.id) s.state.0.outbox
    → length (queue_of locked s.state.0) ≤ 100 * length (commits_of ps)
    → (es : List (Event Poll)) × ((s' : Service Published) × ((inputs_of es ≡ ps)
          × ((handle_all (publishing locked) es s ≡ some s') × IsDrained locked s.state s'.state)))
publishing_drains locked ps s alive unique enough =
    let (es, (s', (on, (read, all)))) = runs (publishing locked) ps s alive in
    let after = (run-IsAlive (publishing locked) es s s' alive on all).1 in
    (
      es,
      (
        s',
        (
          read,
          (
            all,
            subst (IsDrained locked s.state)
                (sym (after ∙ ap (λ is. ran (publishing locked) is s.state) read))
                (ran-IsDrained locked ps s.state.0 s.state.1 unique enough),
          ),
        ),
      ),
    )
