-- ===== src/Coordinator/Run/Delivery.antt =====
-- What a node receives from the coordination server when it polls.
use mathlib.Core.Logic.{ite}
use mathlib.Core.List.{append_assoc, append-nil}
use hive_bear.Prelude.{
  ℕ, zero, suc, ◌-◌, ◌≡◌, refl, sym, ◌∙◌, List, [], ◌∷◌, ◌++◌, arith, inl, inr, length, keep, take,
  is_yes, ltb, if◌then◌else◌, length-append, Bool-cases,
}
use hive_bear.Prelude.Text.{Text, text_dec}
use hive_bear.Float.{Float}
use hive_bear.Coordinator.{State, SignalMessage, send_signal, poll_signals}
use hive_bear.Coordinator.Run.Signals.{inbox, send_signal_lem, poll_signals_lem}

-- The messages of a list that are for the node.
abbrev pub addressed : Text → List SignalMessage → List SignalMessage
addressed k = keep (λ m. is_yes (text_dec m.to_node k))

module _ {A : Type 0} (m : A) (q rest : List A) where
  -- A queue that is sent one more message and then the rest.
  fill_one :
      (if ltb (length q) 50 then q ++ m ∷ [] else q)
        ++ take (50 - length (if ltb (length q) 50 then q ++ m ∷ [] else q)) rest
      ≡ q ++ take (50 - length q) (m ∷ rest)
  fill_one = elim (Bool-cases (ltb (length q) 50)) [
    | inl room ↦
        let n = 49 - length q in
        let e : 50 - length q ≡ suc n = ground (arith, room) in
        let f : 50 - length (q ++ m ∷ []) ≡ n = ground (arith, room, length-append q (m ∷ [])) in
        rw (room, f, e) (append_assoc q (m ∷ []) (take n rest))
    | inr full ↦ let e : 50 - length q ≡ 0 = ground (arith, full) in rw (full, e)
  ]

  fill_dec :
      {P : Type 0} (d : Dec P)
      → ite d (if ltb (length q) 50 then q ++ m ∷ [] else q) q
          ++ take (50 - length (ite d (if ltb (length q) 50 then q ++ m ∷ [] else q) q)) rest
        ≡ q ++ take (50 - length q) (if is_yes d then m ∷ rest else rest)
  fill_dec (yes p) = fill_one
  fill_dec (no p) = refl

take_nil : {A : Type 0} (n : ℕ) (q : List A) → q ++ take n [] ≡ q
take_nil zero q = append-nil q
take_nil (suc n) q = append-nil q

module _ {fl : Float} where
  unfoldable pub send_all : List SignalMessage → State fl → State fl
  send_all [] s = s
  send_all (m ∷ ms) s = send_all ms (send_signal m s).0

  inbox-send_all :
      (k : Text) (ms : List SignalMessage) (s : State fl)
      → inbox k (send_all ms s) ≡ inbox k s ++ take (50 - length (inbox k s)) (addressed k ms)
  unfolding send_all
  inbox-send_all k [] s = sym (take_nil (50 - length (inbox k s)) (inbox k s))
  inbox-send_all k (m ∷ ms) s =
      inbox-send_all k ms (send_signal m s).0
      ∙ rw (send_signal_lem k m s) (fill_dec m (inbox k s) (addressed k ms) (text_dec m.to_node k))

  -- A poll delivers, in the order of sending, what waited before and then the messages for the node
  -- as far as they fit into a queue of 50; messages for other nodes take no room.
  pub poll_signals-send_all :
      (k : Text) (ms : List SignalMessage) (s : State fl)
      → (poll_signals k (send_all ms s)).1
        ≡ inbox k s ++ take (50 - length (inbox k s)) (addressed k ms)
  poll_signals-send_all k ms s = (poll_signals_lem k k (send_all ms s)).0 ∙ inbox-send_all k ms s
