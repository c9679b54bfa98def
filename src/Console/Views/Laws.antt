-- ===== src/Console/Views/Laws.antt =====
-- What apps/web/src/components/PipelineRail.tsx counts, and which entry of
-- apps/web/src/components/AppShell.tsx is the active one.
use payments_processor.Common.{
  ℕ, ◌+◌, ◌≤◌, ◌≡◌, arith, Bool, true, false, List, [], ◌∷◌, length, drop, filter_by, same,
  if◌then◌else◌,
}
use payments_processor.Console.Views.{
  states, Counts, no_counts, count_of, with_one_more, tally_from, tally, bar_of, bar, home_path,
  webhooks_path, chaos_path, architecture_path, nav, starts_with, is_active,
}
use payments_processor.Database.{Payment}
use payments_processor.Shared.Money.{Text}
use payments_processor.Shared.Status.{PaymentStatus, status_eq}

count_of-with_one_more :
    (s t : PaymentStatus) (c : Counts)
    → count_of s (with_one_more t c) ≡ count_of s c + (if status_eq t s then 1 else 0)
count_of-with_one_more s t c = grind arith

count_of-tally_from :
    (s : PaymentStatus) (c : Counts) (payments : List Payment)
    → count_of s (tally_from c payments)
      ≡ count_of s c + length (filter_by (λ p. status_eq p.status s) payments)
count_of-tally_from s c [] = omega arith
count_of-tally_from s c (p ∷ payments) = ground (
  arith,
  count_of-tally_from s (with_one_more p.status c) payments,
  count_of-with_one_more s p.status c,
)

-- All that is counted.
abbrev total : Counts → ℕ
total c = c.of_pending + c.of_processing + c.of_retrying + c.of_completed + c.of_failed

total-with_one_more : (t : PaymentStatus) (c : Counts) → total (with_one_more t c) ≡ total c + 1
total-with_one_more t c = grind arith

total-tally_from :
    (c : Counts) (payments : List Payment)
    → total (tally_from c payments) ≡ total c + length payments
total-tally_from c [] = omega arith
total-tally_from c (p ∷ payments) =
    omega
      (arith, total-tally_from (with_one_more p.status c) payments, total-with_one_more p.status c)

abbrev pub widths : List (PaymentStatus × ℕ) → ℕ
widths [] = 0
widths ((s, n) ∷ rest) = n + widths rest

widths-bar_of : (c : Counts) → widths (bar_of c states) ≡ total c
widths-bar_of c = ground arith

-- The number in a state's box is that of the listed payments in that state, and the parts of the
-- bar are the whole of it.
pub tally-bar :
    (payments : List Payment)
    → ((s : PaymentStatus)
        → count_of s (tally payments) ≡ length (filter_by (λ p. status_eq p.status s) payments))
      × (widths (bar payments) ≡ length payments)
unfolding tally bar
tally-bar payments = (
  (λ s. ground (arith, count_of-tally_from s no_counts payments)),
  ground
      (arith, widths-bar_of (tally_from no_counts payments), total-tally_from no_counts payments),
)

starts_with_second :
    (c d : ℕ) (cs : Text) (a b : ℕ) (ps : Text)
    → starts_with (c ∷ d ∷ cs) (a ∷ b ∷ ps) ≡ true
    → d ≡ b
unfolding starts_with
starts_with_second c d cs a b ps h = ground arith

few_active :
    (root webhooks chaos architecture : Text) (p : Text → Bool) (d : ℕ)
    → p root ≡ false
    → (p webhooks ≡ true → d ≡ b'w')
    → (p chaos ≡ true → d ≡ b'c')
    → (p architecture ≡ true → d ≡ b'a')
    → length (filter_by p (root ∷ webhooks ∷ chaos ∷ architecture ∷ [])) ≤ 1
few_active root webhooks chaos architecture p d other w c a = ground arith

-- Of the entries of the navigation at most one is the active one, whatever the path.
pub nav-is_active : (pathname : Text) → length (filter_by (is_active pathname) nav) ≤ 1
unfolding is_active same
nav-is_active [] = unfold starts_with in (omega arith)
nav-is_active (c ∷ []) = unfold starts_with in ground arith
nav-is_active (c ∷ d ∷ cs) =
    few_active home_path webhooks_path chaos_path architecture_path (is_active (c ∷ d ∷ cs)) d
      (ground arith) (starts_with_second c d cs b'/' b'w' (drop 2 webhooks_path))
      (starts_with_second c d cs b'/' b'c' (drop 2 chaos_path))
      (starts_with_second c d cs b'/' b'a' (drop 2 architecture_path))
