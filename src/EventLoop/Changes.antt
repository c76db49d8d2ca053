-- ===== src/EventLoop/Changes.antt =====
-- The changes that src/loop.c makes: each is to one structure and its event, and keeps the others.
use mathlib.Core.Path.{subst}
use runes.Shared.{
  ℕ, ◌+◌, ◌≡◌, ◌≢◌, inl, inr, refl, sym, ap, ◌∙◌, Bool, false, Option, none, some, arith, ◌==◌,
  ==_iff, Bool-cases,
}
use runes.EventLoop.{LoopData, arg_of, Libevent, is_some, Loop}
use runes.EventLoop.Owned.{event_state, CellOk, EventOk, Owned}

ne_of : (a b : ℕ) → (a == b) ≡ false → a ≢ b
ne_of a b h e = ground arith

module _ (ev : Libevent) where
  pub record Change (busy busy' : ℕ → Bool) (l l' : Loop ev) (d0 e0 : ℕ) : Type 0 where
    pub status_kept : (h : ℕ) → h ≢ e0 → ev.status l'.base h ≡ ev.status l.base h
    pub heap_kept : (d : ℕ) → d ≢ d0 → l'.heap d ≡ l.heap d
    pub timeout_kept : (d : ℕ) → d ≢ d0 → l'.timeouts d ≡ l.timeouts d
    pub busy_kept : (d : ℕ) → d ≢ d0 → busy' d ≡ busy d
    pub only_here : (d : ℕ) (node : LoopData) → l.heap d ≡ some node → node.event ≡ e0 → d ≡ d0
    pub was_here : (node : LoopData) → l.heap d0 ≡ some node → node.event ≡ e0
    pub cell_now : CellOk ev busy' l' d0 (l'.heap d0)
    pub event_now : EventOk ev busy' l' e0
    pub unused_now : (n : ℕ) → l'.heap (l'.next + n) ≡ none

  module _ (busy busy' : ℕ → Bool) (l l' : Loop ev) (d0 e0 : ℕ)
      (c : Change busy busy' l l' d0 e0) where
    cell_kept :
        (d : ℕ) (o : Option LoopData)
        → d ≢ d0
        → l.heap d ≡ o
        → CellOk ev busy l d o
        → CellOk ev busy' l' d o
    cell_kept d none ne e h = c.timeout_kept d ne ∙ h
    cell_kept d (some node) ne e (s, t) = (
      c.status_kept node.event (λ same. ne (c.only_here d node e same))
          ∙ s
          ∙ ap (λ b. event_state b (arg_of node.kind d)) (sym (c.busy_kept d ne)),
      ap is_some (c.timeout_kept d ne) ∙ t,
    )

    event_kept : (e : ℕ) → e ≢ e0 → EventOk ev busy l e → EventOk ev busy' l' e
    event_kept e ne (inl gone) = inl (c.status_kept e ne ∙ gone)
    event_kept e ne (inr (d, node, at, its, s)) =
        let other : d ≢ d0 = λ same. ne (sym its ∙ c.was_here node (ap l.heap (sym same) ∙ at)) in
        inr (
          d,
          node,
          c.heap_kept d other ∙ at,
          its,
          c.status_kept e ne
              ∙ s
              ∙ ap (λ b. event_state b (arg_of node.kind d)) (sym (c.busy_kept d other)),
        )

    pub Change-Owned : Owned ev busy l → Owned ev busy' l'
    Change-Owned o = record {
      cells = λ d. elim (Bool-cases (d == d0)) [
        | inl same ↦
            subst (λ x. CellOk ev busy' l' x (l'.heap x)) (sym ((==_iff d d0).0 same)) c.cell_now
        | inr other ↦
            let ne = ne_of d d0 other in
            subst (CellOk ev busy' l' d) (sym (c.heap_kept d ne))
              (cell_kept d (l.heap d) ne refl (o.cells d))
      ];
      events = λ e. elim (Bool-cases (e == e0)) [
        | inl same ↦ subst (EventOk ev busy' l') (sym ((==_iff e e0).0 same)) c.event_now
        | inr other ↦ event_kept e (ne_of e e0 other) (o.events e)
      ];
      unused = c.unused_now;
    }
