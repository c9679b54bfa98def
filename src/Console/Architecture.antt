-- ===== src/Console/Architecture.antt =====
-- The diagram of apps/web/src/lib/architecture.ts, with the handles that
-- apps/web/src/components/ArchNodeCard.tsx gives each node, and the page
-- apps/web/src/app/architecture/page.tsx that shows it.
pub mod Laws
use payments_processor.Common.{
  ℕ, Bool, true, false, ◌&&◌, Option, none, some, List, [], ◌∷◌, String, str_eq, any,
}

pub data ArchKind : Type 0 where
  process_kind store_kind external_kind : ArchKind

pub record ArchNodeData : Type 0 where
  pub label : String
  pub kind : ArchKind
  pub responsibilities : List String
  pub failure_modes : List String
  pub adrs : List String

pub record ArchNode : Type 0 where
  pub id : String
  pub x : ℕ
  pub y : ℕ
  pub data_of : ArchNodeData

abbrev pub arch_nodes : List ArchNode
arch_nodes =
    record {
      id = "client";
      x = 0;
      y = 300;
      data_of = record {
        label = "Client";
        kind = external_kind;
        responsibilities =
            "Submits ACH payments to the API." ∷ "Polls payment status and reads the audit trail."
            ∷ [];
        failure_modes =
            "May resend the same request — an Idempotency-Key makes duplicates safe (one payment, replayed response)."
            ∷ [];
        adrs = "ADR-002 · Idempotency" ∷ [];
      };
    }
    ∷ record {
      id = "api";
      x = 340;
      y = 300;
      data_of = record {
        label = "API";
        kind = process_kind;
        responsibilities =
            "Validates the request and accepts it (202) without processing inline."
            ∷ "In one transaction writes the payment, an outbox row, and the idempotency record."
            ∷ [];
        failure_modes =
            "Crash after commit → the outbox row is durable and is published later; no payment is lost."
            ∷ [];
        adrs =
            "ADR-001 · Sync vs async" ∷ "ADR-002 · Idempotency" ∷ "ADR-003 · Transactional outbox"
            ∷ [];
      };
    }
    ∷ record {
      id = "postgres";
      x = 340;
      y = 540;
      data_of = record {
        label = "Postgres";
        kind = store_kind;
        responsibilities =
            "System of record: payments, payment_events (audit), outbox, idempotency_keys, webhook_* and bank_config."
            ∷ "Enforces state transitions via compare-and-swap." ∷ [];
        failure_modes =
            "Unavailable → readiness probe returns 503; writes are atomic so partial state cannot persist."
            ∷ [];
        adrs =
            "ADR-005 · Money (integer minor units)" ∷ "ADR-006 · State machine"
            ∷ "ADR-010 · Data access (Drizzle)" ∷ [];
      };
    }
    ∷ record {
      id = "redis";
      x = 1040;
      y = 80;
      data_of = record {
        label = "Redis";
        kind = store_kind;
        responsibilities = "BullMQ queue backing for the payment and webhook job queues." ∷ [];
        failure_modes =
            "The commit→enqueue dual-write is made safe by the outbox (publish is replayable) and jobId dedup."
            ∷ [];
        adrs = "ADR-004 · Queue technology" ∷ [];
      };
    }
    ∷ record {
      id = "relay";
      x = 690;
      y = 540;
      data_of = record {
        label = "Relay";
        kind = process_kind;
        responsibilities =
            "Polls unpublished outbox rows (FOR UPDATE SKIP LOCKED) and publishes them to the queue."
            ∷ "Publishes before marking published — at-least-once." ∷ [];
        failure_modes =
            "Crash after publish, before marking → the row republishes next tick; idempotent consumers make the duplicate harmless."
            ∷ [];
        adrs = "ADR-003 · Transactional outbox" ∷ "ADR-004 · Queue technology" ∷ [];
      };
    }
    ∷ record {
      id = "worker";
      x = 1040;
      y = 300;
      data_of = record {
        label = "Worker";
        kind = process_kind;
        responsibilities =
            "Consumes jobs; drives the payment state machine with a compare-and-swap."
            ∷ "Calls the bank; handles retries with backoff, a retry budget, and a circuit breaker; emits terminal events."
            ∷ [];
        failure_modes =
            "Crash mid-processing → the job redelivers; CAS + a per-payment bank key make the effect exactly-once despite at-least-once delivery."
            ∷ [];
        adrs = "ADR-006 · State machine" ∷ "ADR-007 · Delivery semantics" ∷ [];
      };
    }
    ∷ record {
      id = "bank";
      x = 1380;
      y = 300;
      data_of = record {
        label = "Bank";
        kind = external_kind;
        responsibilities =
            "ACH banking partner (simulated) — authorizes, declines, or errors on a payment." ∷ [];
        failure_modes =
            "Declines are terminal (no retry); transient errors/timeouts are retried; the circuit breaker sheds load while the bank is failing."
            ∷ [];
        adrs = "ADR-007 · Delivery semantics" ∷ [];
      };
    }
    ∷ record {
      id = "dispatcher";
      x = 690;
      y = 760;
      data_of = record {
        label = "Dispatcher";
        kind = process_kind;
        responsibilities =
            "Fans terminal payment events out to webhook_deliveries (one event → N endpoints) and enqueues delivery jobs."
            ∷ [];
        failure_modes =
            "Uses the same outbox-style claim (SKIP LOCKED) + marker, so it cannot lose or double-fan-out under crash."
            ∷ [];
        adrs = "ADR-008 · Webhook delivery" ∷ [];
      };
    }
    ∷ record {
      id = "receiver";
      x = 1380;
      y = 540;
      data_of = record {
        label = "Webhook receiver";
        kind = external_kind;
        responsibilities = "The customer's endpoint — receives signed delivery POSTs." ∷ [];
        failure_modes =
            "If down, deliveries retry with backoff and land in a dead-letter after the budget; HMAC signatures let the receiver verify authenticity."
            ∷ [];
        adrs = "ADR-008 · Webhook delivery" ∷ [];
      };
    }
    ∷ []

pub record Edge : Type 0 where
  pub id : String
  pub source : String
  pub source_handle : String
  pub target : String
  pub target_handle : String
  pub label : String

abbrev edge : (id source source_handle target target_handle label : String) → Edge
edge id source source_handle target target_handle label = record {
  id = id;
  source = source;
  source_handle = source_handle;
  target = target;
  target_handle = target_handle;
  label = label;
}

abbrev pub arch_edges : List Edge
arch_edges =
    edge "e-client-api" "client" "sr" "api" "tl" "POST /v1/payments"
    ∷ edge "e-api-pg" "api" "sb" "postgres" "tt" "txn: payment + outbox"
    ∷ edge "e-relay-pg" "relay" "sl" "postgres" "tr" "poll outbox · SKIP LOCKED"
    ∷ edge "e-relay-redis" "relay" "sr" "redis" "tb" "publish · at-least-once"
    ∷ edge "e-redis-worker" "redis" "sb" "worker" "tt" "consume"
    ∷ edge "e-worker-bank" "worker" "sr" "bank" "tl" "authorize · idempotent"
    ∷ edge "e-worker-pg" "worker" "sl" "postgres" "tr" "CAS + events"
    ∷ edge "e-disp-pg" "dispatcher" "sl" "postgres" "tb" "fan-out terminal events"
    ∷ edge "e-disp-redis" "dispatcher" "sr" "redis" "tb" "enqueue delivery"
    ∷ edge "e-worker-recv" "worker" "sb" "receiver" "tl" "signed POST · HMAC"
    ∷ []

pub data Side : Type 0 where
  top left right bottom : Side

-- `Handle`: its id, whether edges end at it or start from it, and its side of the node.
pub record Handle : Type 0 where
  pub id : String
  pub is_target : Bool
  pub side : Side

abbrev new_handle : String → Bool → Side → Handle
new_handle id is_target side = record { id = id; is_target = is_target; side = side }

abbrev pub card_handles : List Handle
card_handles =
    new_handle "tt" true top
    ∷ new_handle "tl" true left
    ∷ new_handle "tr" true right
    ∷ new_handle "tb" true bottom
    ∷ new_handle "st" false top
    ∷ new_handle "sl" false left
    ∷ new_handle "sr" false right
    ∷ new_handle "sb" false bottom
    ∷ []

-- What the page has open beside the diagram.
pub data Click : Type 0 where
  on_node : ArchNode → Click
  on_pane : Click

-- `onNodeClick` and `onPaneClick`
abbrev pub select : Click → Option ArchNodeData
select (on_node node) = some node.data_of
select on_pane = none
