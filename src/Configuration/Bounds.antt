-- ===== src/Configuration/Bounds.antt =====
-- The bounds that apps/api/src/config.ts sets on the numbers that it reads.
use payments_processor.Common.{◌≡◌, []}
use payments_processor.Configuration.Laws.{load-read_config}
use payments_processor.Configuration.Settings.{
  read_worker, read_bank, read_relay, read_webhooks, read_network, Config, read_config, loaded,
  load,
}
use payments_processor.Configuration.{Environment}
use payments_processor.Configuration.Groups.{
  both, NetworkInBounds, read_network-quiet, WorkerInBounds, read_worker-quiet, BankInBounds,
  read_bank-quiet, RelayInBounds, read_relay-quiet, WebhooksInBounds, read_webhooks-quiet,
}

-- The problems of a configuration are those of its groups.
pub read_config-quiet :
    (e : Environment)
    → (read_config e).1 ≡ []
    → ((read_network e).1 ≡ [])
      × ((read_worker e).1 ≡ [])
      × ((read_bank e).1 ≡ [])
      × ((read_relay e).1 ≡ [])
      × ((read_webhooks e).1 ≡ [])
unfolding read_config
read_config-quiet e h =
    let (a, r0) = both (read_network e).1 _ h in
    let (b, r1) = both (read_worker e).1 _ r0 in
    let (c, r2) = both (read_bank e).1 _ r1 in
    let (d, f) = both (read_relay e).1 _ r2 in (a, b, c, d, f)

-- When the module loads without an error, every number that it read is finite and within its
-- bounds: ports from 1 to 65535, intervals of polls of at least 100 ms and that of the cleanup of at
-- least 1000, at least one attempt, one failure for the breaker and one day of retention, and
-- nothing negative.
pub load-InBounds :
    (e : Environment) (c : Config)
    → load e ≡ loaded c
    → NetworkInBounds c.network
      × WorkerInBounds c.worker
      × BankInBounds c.bank
      × RelayInBounds c.relay
      × WebhooksInBounds c.webhooks
load-InBounds e c h =
    let (is_c, quiet) = load-read_config e c h in
    let (a, b, d, f, g) = read_config-quiet e quiet in
    rw (← is_c) (
      unfold read_config in
      (
        read_network-quiet e a,
        read_worker-quiet e b,
        read_bank-quiet e d,
        read_relay-quiet e f,
        read_webhooks-quiet e g,
      ))
