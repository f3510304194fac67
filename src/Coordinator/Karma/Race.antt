-- ===== src/Coordinator/Karma/Race.antt =====
-- Two claims at once: the handler's accesses to the shared maps interleave. The handler as a whole is not
-- atomic, but `current`, which `entry` gives, keeps the shard of the worker's balance locked until the
-- handler returns, after the receipt is recorded: crates/hivebear-coordinator/src/main.rs. The checks,
-- which only read, are one step here.
use hive_bear.Prelude.{ℕ, ◌+◌, ◌%◌, ◌^◌, ◌≤◌, ◌<◌, ◌≡◌, ◌≢◌, refl, none, some, arith}
use hive_bear.Prelude.Map.{lookup-insert_self}
use hive_bear.Prelude.Text.{Text}
use hive_bear.Float.{Float}
use hive_bear.Coordinator.{State, StatusCode}
use hive_bear.Coordinator.Karma.{WorkReceipt, karma_of, claim_checks, credit_worker, record_receipt}

-- How far one call of `claim_karma` is. Between `credited` and `finished` it holds the lock.
pub data Phase : Type 0 where
  started checked credited finished : Phase
  rejected : StatusCode → Phase

-- The shared maps, and two calls under way.
pub record Calls (fl : Float) : Type 0 where
  pub shared : State fl
  pub first : Phase
  pub second : Phase

-- One step of a call while the other one is in the phase `other`: the checks; the update of the balance,
-- which waits for the lock; the recording of the receipt with the return, which frees the lock.
pub data CallStep {fl : Float} (now : ℕ) (r : WorkReceipt) (other : Phase)
    : State fl → Phase → State fl → Phase → Type 0 where
  pass : {s : State fl} → claim_checks r s ≡ none → CallStep now r other s started s checked
  reject :
      {s : State fl} (c : StatusCode)
      → claim_checks r s ≡ some c
      → CallStep now r other s started s (rejected c)
  credit :
      {s t : State fl}
      → other ≢ credited
      → t ≡ credit_worker r s
      → CallStep now r other s checked t credited
  finish :
      {s t : State fl} → t ≡ record_receipt now r s → CallStep now r other s credited t finished

-- Either call takes the next step.
pub data Interleaving {fl : Float} (now : ℕ) (r : WorkReceipt) (a : Calls fl)
    : Calls fl → Type 0 where
  here : Interleaving now r a a
  first_moves :
      {b : Calls fl} {t : State fl} {p : Phase}
      → Interleaving now r a b
      → CallStep now r b.second b.shared b.first t p
      → Interleaving now r a (record b { shared = t; first = p })
  second_moves :
      {b : Calls fl} {t : State fl} {p : Phase}
      → Interleaving now r a b
      → CallStep now r b.first b.shared b.second t p
      → Interleaving now r a (record b { shared = t; second = p })

abbrev pub both_started : {fl : Float} → State fl → Calls fl
both_started s = record { shared = s; first = started; second = started }

karma_of-credit_worker :
    {fl : Float} (r : WorkReceipt) (s : State fl)
    → karma_of r.worker_node_id (credit_worker r s)
      ≡ (karma_of r.worker_node_id s + r.tokens_processed) % 2 ^ 64
unfolding credit_worker karma_of
karma_of-credit_worker r s = rw lookup-insert_self

karma_of-record_receipt :
    {fl : Float} (now : ℕ) (r : WorkReceipt) (id : Text) (s : State fl)
    → karma_of id (record_receipt now r s) ≡ karma_of id s
unfolding record_receipt karma_of
karma_of-record_receipt now r id s = refl

-- Two calls with one receipt that passes the checks can both be awarded, although a balance is locked
-- from its update to the recording of the receipt: some interleaving ends with both finished and the
-- worker credited twice with the tokens.
pub double_award :
    {fl : Float} (now : ℕ) (r : WorkReceipt) (s : State fl)
    → claim_checks r s ≡ none
    → karma_of r.worker_node_id s + r.tokens_processed + r.tokens_processed < 2 ^ 63
    → (c : Calls fl) × Interleaving now r (both_started s) c
      × (c.first ≡ finished)
      × (c.second ≡ finished)
      × (karma_of r.worker_node_id c.shared
          ≡ karma_of r.worker_node_id s + r.tokens_processed + r.tokens_processed)
double_award {fl} now r s ok small = (
  record { shared = twice; first = finished; second = finished },
  second_moves
      (second_moves
        (first_moves
          (first_moves (second_moves (first_moves here (pass ok)) (pass ok))
            (credit (λ e. cc) refl))
          (finish refl))
        (credit (λ e. cc) refl))
      (finish refl),
  refl,
  refl,
  simp (karma_of-record_receipt, karma_of-credit_worker) (omega arith),
)
  where
    once : State fl
    once = record_receipt now r (credit_worker r s)

    twice : State fl
    twice = record_receipt now r (credit_worker r once)

-- What a call has credited the worker with.
abbrev pub gained : ℕ → Phase → ℕ
gained tokens started = 0
gained tokens checked = 0
gained tokens credited = tokens
gained tokens finished = tokens
gained tokens (rejected c) = 0

gained-le : (tokens : ℕ) (p : Phase) → gained tokens p ≤ tokens
gained-le tokens started = omega arith
gained-le tokens checked = omega arith
gained-le tokens credited = omega arith
gained-le tokens finished = omega arith
gained-le tokens (rejected c) = omega arith

-- A step changes the balance by what the call gains, and takes the lock only while it is free.
CallStep-gained :
    {fl : Float} (now : ℕ) (r : WorkReceipt) (before : ℕ) (s t : State fl) (other p q : Phase)
    → before + r.tokens_processed + r.tokens_processed < 2 ^ 63
    → karma_of r.worker_node_id s
      ≡ before + gained r.tokens_processed p + gained r.tokens_processed other
    → (p ≡ credited → other ≢ credited)
    → CallStep now r other s p t q
    → (karma_of r.worker_node_id t
        ≡ before + gained r.tokens_processed q + gained r.tokens_processed other)
      × (q ≡ credited → other ≢ credited)
CallStep-gained now r before s t other p q small e lock (pass ok) = (e, λ h. cc)
CallStep-gained now r before s t other p q small e lock (reject c no_pass) = (e, λ h. cc)
CallStep-gained now r before s t other p q small e lock (credit free same) = (
  rw same (omega (arith, karma_of-credit_worker r s, e, small, gained-le r.tokens_processed other)),
  λ h. free,
)
CallStep-gained now r before s t other p q small e lock (finish same) =
    (rw same (rw (karma_of-record_receipt now r r.worker_node_id s) e), λ h. cc)

-- In every interleaving the balance has grown by the tokens once for each call that has credited them,
-- so that no update is lost, and at most one call holds the lock.
balance_exact :
    {fl : Float} (now : ℕ) (r : WorkReceipt) (s : State fl) (c : Calls fl)
    → karma_of r.worker_node_id s + r.tokens_processed + r.tokens_processed < 2 ^ 63
    → Interleaving now r (both_started s) c
    → (karma_of r.worker_node_id c.shared
        ≡ karma_of r.worker_node_id s
          + gained r.tokens_processed c.first
          + gained r.tokens_processed c.second)
      × (c.first ≡ credited → c.second ≢ credited)
balance_exact now r s c small here = (omega arith, λ h. cc)
balance_exact now r s c small (first_moves {b} {t} {p} steps step) =
    let ih = balance_exact now r s b small steps in
    CallStep-gained now r (karma_of r.worker_node_id s) b.shared t b.second b.first p small ih.0
      ih.1 step
balance_exact now r s c small (second_moves {b} {t} {p} steps step) =
    let ih = balance_exact now r s b small steps in
    let next =
      CallStep-gained now r (karma_of r.worker_node_id s) b.shared t b.first b.second p small
        (omega (arith, ih.0)) (λ h k. ih.1 k h) step in
    (omega (arith, next.0), λ h k. next.1 k h)
