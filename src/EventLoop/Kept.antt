-- ===== src/EventLoop/Kept.antt =====
-- The steps of src/loop.c as such changes: a structure is added or freed, and an event is taken off or
-- armed again.
use mathlib.Core.Path.{subst}
use runes.Shared.{
  ℕ, suc, ◌+◌, ◌≡◌, ◌≢◌, inl, inr, refl, sym, ap, ◌∙◌, Bool, true, false, Option, none, some, arith,
  ◌==◌, Bool-cases,
}
use runes.Shared.Tables.{put, put_same, put_other}
use runes.Window.Clock.{Timeval}
use runes.EventLoop.{
  Kind, LoopData, Arg, arg_of, Status, freed, idle, armed, arm, is_known, Libevent, is_some, Loop,
  add_data,
}
use runes.EventLoop.Owned.{
  is_timer, event_state, event_state_known, event_state-address, address-arg_of, CellOk, Owned,
}
use runes.EventLoop.Changes.{Change-Owned}

-- A status that is written as a table's entry.
put_at : (e h : ℕ) (s : Status) (f : ℕ → Status) {x : Status} → x ≡ put e s f h → h ≢ e → x ≡ f h
put_at e h s f p ne = p ∙ put_other e h s f ne

module _ (ev : Libevent) where
  module _ (busy : ℕ → Bool) (l : Loop ev) (o : Owned ev busy l) where
    pub next_free : l.heap l.next ≡ none
    next_free = (let e : l.next + 0 ≡ l.next = omega arith in ap l.heap (sym e) ∙ o.unused 0)

    pub node_event :
        (d : ℕ) (node : LoopData)
        → l.heap d ≡ some node
        → ev.status l.base node.event ≡ event_state (busy d) (arg_of node.kind d)
    node_event d node e = (subst (CellOk ev busy l d) e (o.cells d)).0

    pub node_timeout :
        (d : ℕ) (node : LoopData)
        → l.heap d ≡ some node
        → is_some (l.timeouts d) ≡ is_timer node.kind
    node_timeout d node e = (subst (CellOk ev busy l d) e (o.cells d)).1

    pub node_known :
        (d : ℕ) (node : LoopData)
        → l.heap d ≡ some node
        → is_known (ev.status l.base node.event) ≡ true
    node_known d node e = ap is_known (node_event d node e) ∙ known (busy d) (arg_of node.kind d)
      where
        known : (b : Bool) (a : Arg) → is_known (event_state b a) ≡ true
        known true a = refl
        known false a = refl

    -- Two structures with one event are one.
    same_node :
        (d d' : ℕ) (node node' : LoopData)
        → l.heap d ≡ some node
        → l.heap d' ≡ some node'
        → node.event ≡ node'.event
        → d ≡ d'
    same_node d d' node node' at at' e =
        sym (address-arg_of node.kind d)
        ∙ event_state-address (busy d) (busy d') (arg_of node.kind d) (arg_of node'.kind d')
            (sym (node_event d node at) ∙ ap (ev.status l.base) e ∙ node_event d' node' at')
        ∙ address-arg_of node'.kind d'

    some_node : (node node' : LoopData) → some node ≡ some node' → node ≡ node'
    some_node node node' e = ground (arith, e)

    abbrev added : ℕ → Kind → Option Timeval → Loop ev
    added t kind timeout = add_data ev t kind timeout l

    abbrev event_of : Kind → ℕ
    event_of kind = (ev.event_new l.base (arg_of kind l.next)).0

    added_status :
        (t : ℕ) (kind : Kind) (timeout : Option Timeval) (h : ℕ)
        → ev.status (added t kind timeout).base h
          ≡ put (event_of kind) (armed (arg_of kind l.next)) (ev.status l.base) h
    added_status t kind timeout h =
        let made = ev.event_new l.base (arg_of kind l.next) in
        let there : ev.status made.1 made.0 ≡ idle (arg_of kind l.next) =
          ev.status-event_new l.base (arg_of kind l.next) made.0
          ∙ put_same made.0 (idle (arg_of kind l.next)) (ev.status l.base) in
        ev.status-event_add made.1 made.0 timeout h ∙ (elim (Bool-cases (h == made.0)) [
          | inl same ↦ rw same (ap arm there)
          | inr other ↦
              rw other (ev.status-event_new l.base (arg_of kind l.next) h ∙ (rw other refl))
        ])

    pub add_data-Owned :
        (t : ℕ) (kind : Kind) (timeout : Option Timeval)
        → busy l.next ≡ false
        → is_some timeout ≡ is_timer kind
        → Owned ev busy (added t kind timeout)
    add_data-Owned t kind timeout idle_next timed =
        let e0 = event_of kind in
        let node : LoopData = record { event = e0; t = t; kind = kind } in
        let here : put l.next (some node) l.heap l.next ≡ some node =
          put_same l.next (some node) l.heap in
        let armed_now : ev.status (added t kind timeout).base e0
            ≡ event_state (busy l.next) (arg_of kind l.next) =
          added_status t kind timeout e0
          ∙ put_same e0 (armed (arg_of kind l.next)) (ev.status l.base)
          ∙ ap (λ b. event_state b (arg_of kind l.next)) (sym idle_next) in
        Change-Owned ev busy busy l (added t kind timeout) l.next e0
          (record {
            status_kept =
                λ h ne. put_at e0 h _ (ev.status l.base) (added_status t kind timeout h) ne;
            heap_kept = λ d ne. put_other l.next d (some node) l.heap ne;
            timeout_kept = λ d ne. put_other l.next d timeout l.timeouts ne;
            busy_kept = λ d ne. refl;
            only_here = λ d node' at same. absurd (
                event_state_known (busy d) (arg_of node'.kind d) (
                  sym (node_event d node' at)
                  ∙ ap (ev.status l.base) same
                  ∙ ev.event_new_fresh l.base (arg_of kind l.next)));
            was_here = λ node' at. absurd (ground (arith, sym at ∙ next_free));
            cell_now =
                subst (CellOk ev busy (added t kind timeout) l.next) (sym here)
                  (armed_now, ap is_some (put_same l.next timeout l.timeouts) ∙ timed);
            event_now = inr (l.next, node, here, refl, armed_now);
            unused_now = λ n.
                put_other l.next (suc l.next + n) (some node) l.heap (λ e. omega arith)
                ∙ (let e : suc l.next + n ≡ l.next + suc n = omega arith in
                    ap l.heap e ∙ o.unused (suc n));
          })
          o

    -- The structure d and its event go; what libevent did to the event before does not matter, nor
    -- whether the callback ran.
    pub freed-Owned :
        (busy' : ℕ → Bool) (d : ℕ) (node : LoopData) (base : ev.Base) (times : ℕ → Option Timeval)
        → l.heap d ≡ some node
        → ((h : ℕ) → h ≢ node.event → ev.status base h ≡ ev.status l.base h)
        → times d ≡ none
        → ((x : ℕ) → x ≢ d → times x ≡ l.timeouts x)
        → ((x : ℕ) → x ≢ d → busy' x ≡ busy x)
        → Owned ev busy' (record l {
          heap = put d none l.heap;
          timeouts = times;
          base = ev.event_free base node.event;
        })
    freed-Owned busy' d node base times at kept no_time other_times others =
        let l' : Loop ev = record l {
          heap = put d none l.heap;
          timeouts = times;
          base = ev.event_free base node.event;
        } in
        Change-Owned ev busy busy' l l' d node.event
          (record {
            status_kept = λ h ne.
                put_at node.event h freed (ev.status base) (ev.status-event_free base node.event h)
                  ne
                ∙ kept h ne;
            heap_kept = λ x ne. put_other d x none l.heap ne;
            timeout_kept = other_times;
            busy_kept = others;
            only_here = λ x node' there same. same_node x d node' node there at same;
            was_here = λ node' there. ap (λ m. m.event) (some_node node' node (sym there ∙ at));
            cell_now = subst (CellOk ev busy' l' d) (sym (put_same d none l.heap)) no_time;
            event_now = inl (
                ev.status-event_free base node.event node.event
                ∙ put_same node.event freed (ev.status base));
            unused_now = λ n. none_put d (l.next + n) l.heap (o.unused n);
          })
          o
      where
        none_put : (i x : ℕ) (f : ℕ → Option LoopData) → f x ≡ none → put i none f x ≡ none
        none_put i x f e = elim (Bool-cases (x == i)) [
          | inl same ↦ rw same refl
          | inr other ↦ rw other e
        ]

    -- The event of d is taken off, or armed again.
    pub status-Owned :
        (busy' : ℕ → Bool) (d : ℕ) (node : LoopData) (base : ev.Base)
        → l.heap d ≡ some node
        → ((h : ℕ) → h ≢ node.event → ev.status base h ≡ ev.status l.base h)
        → ev.status base node.event ≡ event_state (busy' d) (arg_of node.kind d)
        → ((x : ℕ) → x ≢ d → busy' x ≡ busy x)
        → Owned ev busy' (record l { base = base })
    status-Owned busy' d node base at kept now others =
        Change-Owned ev busy busy' l (record l { base = base }) d node.event
          (record {
            status_kept = kept;
            heap_kept = λ x ne. refl;
            timeout_kept = λ x ne. refl;
            busy_kept = others;
            only_here = λ x node' there same. same_node x d node' node there at same;
            was_here = λ node' there. ap (λ m. m.event) (some_node node' node (sym there ∙ at));
            cell_now =
                subst (CellOk ev busy' (record l { base = base }) d) (sym at)
                  (now, node_timeout d node at);
            event_now = inr (d, node, at, refl, now);
            unused_now = o.unused;
          })
          o
