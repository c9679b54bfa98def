-- ===== src/Console/Views.antt =====
-- What the console shows beside its pages: the rail of apps/web/src/components/PipelineRail.tsx and
-- the navigation of apps/web/src/components/AppShell.tsx.
pub mod Laws
use payments_processor.Common.{
  ℕ, zero, suc, ◌+◌, Bool, true, false, ◌&&◌, List, [], ◌∷◌, String, ltb, ◌==◌, same, length,
  filter_by, if◌then◌else◌,
}
use payments_processor.Database.{Payment}
use payments_processor.Shared.Money.{Text}
use payments_processor.Shared.Status.{
  PaymentStatus, pending, processing, retrying, completed, failed,
}

-- The keys of `STATES`, in the order of the rail.
abbrev pub states : List PaymentStatus
states = pending ∷ processing ∷ retrying ∷ completed ∷ failed ∷ []

pub record Counts : Type 0 where
  pub of_pending : ℕ
  pub of_processing : ℕ
  pub of_retrying : ℕ
  pub of_completed : ℕ
  pub of_failed : ℕ

abbrev pub no_counts : Counts
no_counts = record {
  of_pending = 0;
  of_processing = 0;
  of_retrying = 0;
  of_completed = 0;
  of_failed = 0;
}

-- counts[status]
abbrev pub count_of : PaymentStatus → Counts → ℕ
count_of pending c = c.of_pending
count_of processing c = c.of_processing
count_of retrying c = c.of_retrying
count_of completed c = c.of_completed
count_of failed c = c.of_failed

-- counts[status] += 1
abbrev pub with_one_more : PaymentStatus → Counts → Counts
with_one_more pending c = record c { of_pending = c.of_pending + 1 }
with_one_more processing c = record c { of_processing = c.of_processing + 1 }
with_one_more retrying c = record c { of_retrying = c.of_retrying + 1 }
with_one_more completed c = record c { of_completed = c.of_completed + 1 }
with_one_more failed c = record c { of_failed = c.of_failed + 1 }

abbrev pub tally_from : Counts → List Payment → Counts
tally_from c [] = c
tally_from c (p ∷ payments) = tally_from (with_one_more p.status c) payments

unfoldable pub tally : List Payment → Counts
tally payments = tally_from no_counts payments

abbrev pub bar_of : Counts → List PaymentStatus → List (PaymentStatus × ℕ)
bar_of counts [] = []
bar_of counts (s ∷ ss) =
    let rest = bar_of counts ss in
    if ltb 0 (count_of s counts) then (s, count_of s counts) ∷ rest else rest

-- The states that have a part of the bar, in the order of the rail, and the payments that each
-- stands for out of all that are listed.
unfoldable pub bar : List Payment → List (PaymentStatus × ℕ)
bar payments = if ltb 0 (length payments) then bar_of (tally payments) states else []

abbrev pub home_path : Text
home_path = b'/' ∷ []

abbrev pub webhooks_path : Text
webhooks_path = b'/' ∷ b'w' ∷ b'e' ∷ b'b' ∷ b'h' ∷ b'o' ∷ b'o' ∷ b'k' ∷ b's' ∷ []

abbrev pub chaos_path : Text
chaos_path = b'/' ∷ b'c' ∷ b'h' ∷ b'a' ∷ b'o' ∷ b's' ∷ []

abbrev pub architecture_path : Text
architecture_path =
    b'/' ∷ b'a' ∷ b'r' ∷ b'c' ∷ b'h' ∷ b'i' ∷ b't' ∷ b'e' ∷ b'c' ∷ b't' ∷ b'u' ∷ b'r' ∷ b'e' ∷ []

-- The paths of `NAV`.
abbrev pub nav : List Text
nav = home_path ∷ webhooks_path ∷ chaos_path ∷ architecture_path ∷ []

unfoldable pub starts_with : Text → Text → Bool
starts_with cs [] = true
starts_with [] (p ∷ ps) = false
starts_with (c ∷ cs) (p ∷ ps) = c == p && starts_with cs ps

-- `isActive`
unfoldable pub is_active : Text → Text → Bool
unfolding starts_with
is_active pathname href =
    if same href home_path then same pathname home_path else starts_with pathname href
