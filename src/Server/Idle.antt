-- ===== src/Server/Idle.antt =====
-- Outside MULTI the queue of a connection is empty between requests, so that `handleSingle` always
-- finds the command that was just pushed.
use mathlib.Core.Option
use redka.Base.{
  Bool, true, false, Option, none, some, List, [], ◌∷◌, ◌++◌, ◌≡◌, refl, str_eq, if◌then◌else◌,
}
use redka.Schema.{Db}
use redka.Reply.{Reply}
use redka.Server.{
  Commands, ConnState, Served, Outside, Parsed, parsed, refused, last?, but_last, handle, multi,
  serve, serve_all, and_then, dispatch,
}

module _ {Cmd : Type 0} where
  pub last?-append : (cs : List Cmd) (c : Cmd) → last? (cs ++ c ∷ []) ≡ some c
  last?-append [] c = refl
  last?-append (x ∷ []) c = refl
  last?-append (x ∷ y ∷ cs) c = last?-append (y ∷ cs) c

  pub but_last-append : (cs : List Cmd) (c : Cmd) → but_last (cs ++ c ∷ []) ≡ cs
  but_last-append [] c = refl
  but_last-append (x ∷ []) c = refl
  but_last-append (x ∷ y ∷ cs) c = rw (but_last-append (y ∷ cs) c)

  -- outside MULTI nothing is queued
  abbrev pub IsIdle : ConnState Cmd → Type 0
  IsIdle s = s.in_multi ≡ false → s.cmds ≡ []

module _ (c : Commands) where
  open c use {Request, Cmd, norm_name, parse_request, run_tx, run_db}

  -- there is an outcome, and outside MULTI it leaves an empty queue
  abbrev pub Serves : Option (List Reply × Served Cmd) → Type 0
  Serves none = ⊥
  Serves (some (out, s)) = IsIdle s.conn

  Serves-if :
      (b : Bool) (x y : Option (List Reply × Served Cmd))
      → Serves x
      → Serves y
      → Serves (if b then x else y)
  Serves-if true x y hx hy = hx
  Serves-if false x y hx hy = hy

  multi-Serves :
      (q : Request) (o : Outside) (cmd : Cmd) (b : Bool) (cs : List Cmd) (db : Db)
      → (b ≡ false → cs ≡ [])
      → Serves
          (multi c q o (record { conn = record { in_multi = b; cmds = cs ++ cmd ∷ [] }; db = db }))
  unfolding multi handle
  multi-Serves q o cmd true cs db idle =
      Serves-if (str_eq (norm_name q) "multi") _ _ (λ h. cc)
        (Serves-if (str_eq (norm_name q) "exec") _ _ (λ h. refl)
          (Serves-if (str_eq (norm_name q) "discard") _ _ (λ h. refl) (λ h. cc)))
  multi-Serves q o cmd false cs db idle =
      rw (but_last-append cs cmd, last?-append cs cmd)
        (Serves-if (str_eq (norm_name q) "multi") _ _ (λ h. cc)
          (Serves-if (str_eq (norm_name q) "exec") _ _ idle
            (Serves-if (str_eq (norm_name q) "discard") _ _ idle (λ h. refl))))

  dispatch-Serves :
      (p : Parsed Cmd) (q : Request) (o : Outside) (s : Served Cmd)
      → IsIdle s.conn
      → Serves (dispatch c p q o s)
  dispatch-Serves (refused text) q o s idle = idle
  dispatch-Serves (parsed cmd) q o s idle =
      multi-Serves q o cmd s.conn.in_multi s.conn.cmds s.db idle

  -- One request never panics, whatever the command and the driver do, and leaves the connection
  -- idle or in MULTI.
  pub serve-Serves :
      (q : Request) (o : Outside) (s : Served Cmd) → IsIdle s.conn → Serves (serve c q o s)
  unfolding serve
  serve-Serves q o s idle = dispatch-Serves (parse_request q) q o s idle

  and_then-Serves :
      (r : Option (List Reply × Served Cmd)) (next : Served Cmd → Option (List Reply × Served Cmd))
      → Serves r
      → ((s : Served Cmd) → IsIdle s.conn → Serves (next s))
      → Serves (and_then c r next)
  and_then-Serves none next h k = absurd h
  and_then-Serves (some (out, s)) next h k = prefixed (next s) (k s h)
    where
      prefixed :
          (r : Option (List Reply × Served Cmd))
          → Serves r
          → Serves (Option.map (λ r. (out ++ r.0, r.1)) r)
      prefixed none h = h
      prefixed (some (out', s')) h = h

  -- No sequence of requests panics on a connection whose queue is empty unless it is in MULTI:
  -- every request finds the command that it runs, and at the end the queue is empty unless the
  -- connection is in MULTI.
  pub serve_all-Serves :
      (qs : List (Request × Outside)) (s : Served Cmd) → IsIdle s.conn → Serves (serve_all c qs s)
  unfolding serve_all
  serve_all-Serves [] s idle = idle
  serve_all-Serves ((q, o) ∷ qs) s idle =
      and_then-Serves (serve c q o s) (serve_all c qs) (serve-Serves q o s idle)
        (serve_all-Serves qs)
