-- ===== src/System/Invariant.antt =====
-- The invariant of the program at work, over every interleaving of its steps.
use redka.Base.{
  ℕ, String, Bool, true, false, Option, some, List, ◌≡◌, refl, ◌==◌, if◌then◌else◌, ◌∙◌, sym, subst,
}
use redka.Schema.Valid.{IsValid}
use redka.Reply.{Reply}
use redka.Server.{ConnState, Served, Outside, serve}
use redka.Server.Idle.{IsIdle}
use redka.Rzset.Store.{some_eq}
use redka.Command.{Cmd}
use redka.Command.Redka.{Runtime, redka_commands, EndsWell, serve-EndsWell}
use redka.System.{System, Step, request, reopen, purge, Reach, here, step, seen_by, after}
use redka.System.Purges.{tick-IsValid}

-- the tables are valid, and no connection has a queue outside MULTI
pub record Healthy (s : System) : Type 0 where
  pub valid : IsValid s.db
  pub idle : (i : ℕ) → IsIdle (s.conns i)

if-IsIdle : (b : Bool) (x y : ConnState Cmd) → IsIdle x → IsIdle y → IsIdle (if b then x else y)
if-IsIdle true x y hx hy = hx
if-IsIdle false x y hx hy = hy

after-Healthy :
    (i : ℕ) (r : Served Cmd) (s : System)
    → IsValid r.db
    → IsIdle r.conn
    → Healthy s
    → Healthy (after i r s)
after-Healthy i r s w idle h = record {
  valid = w;
  idle = λ j. if-IsIdle (j == i) r.conn (s.conns j) idle (h.idle j);
}

-- the outcome of the handlers is the one that they have
the_outcome :
    (r : Runtime) (res : Option (List Reply × Served Cmd)) (out : List Reply) (s : Served Cmd)
    → EndsWell r res
    → res ≡ some (out, s)
    → IsIdle s.conn × IsValid s.db
the_outcome r res out s (out', s', q, idle, w) e =
    let same : (out', s') ≡ (out, s) = some_eq (sym q ∙ e) in
    subst (λ (x : List Reply × Served Cmd). IsIdle x.1.conn × IsValid x.1.db) same (idle, w)

Step-Healthy : (r : Runtime) {s s' : System} → Step r s s' → Healthy s → Healthy s'
Step-Healthy r {s} (request i q o out s' e) h =
    let (idle, w) =
      the_outcome r _ out s' (serve-EndsWell r q o (seen_by i s) (h.idle i) h.valid) e in
    after-Healthy i s' s w idle h
Step-Healthy r {s} (reopen i) h = after-Healthy i _ s h.valid (λ _. refl) h
Step-Healthy r {s} (purge o t) h = record { valid = tick-IsValid o t s.db h.valid; idle = h.idle }

Reach-Healthy : (r : Runtime) {start s : System} → Healthy start → Reach r start s → Healthy s
Reach-Healthy r h here = h
Reach-Healthy r h (step before last) = Step-Healthy r last (Reach-Healthy r h before)

-- However the requests of any number of connections, their closing and the rounds of the background
-- purge follow one another, and whatever the driver and the clock answer: from valid tables and
-- queues that are empty outside MULTI, the program stays in such states, and in each of them the
-- next request of any connection is answered without a panic.
pub reach_lem :
    (r : Runtime) (start s : System) (i : ℕ) (q : String × List String) (o : Outside)
    → Healthy start
    → Reach r start s
    → Healthy s
      × ((out : List Reply) × (s' : Served Cmd) × (serve (redka_commands r) q o (seen_by i s)
            ≡ some (out, s')))
reach_lem r start s i q o h steps =
    let h' : Healthy s = Reach-Healthy r h steps in
    let (out, s', e, idle, w) = serve-EndsWell r q o (seen_by i s) (h'.idle i) h'.valid in
    (h', (out, s', e))
