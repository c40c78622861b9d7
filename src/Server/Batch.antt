-- ===== src/Server/Batch.antt =====
-- A MULTI … EXEC batch: the commands wait, and then run in one transaction.

use redka.Base.{
  ℕ, suc, String, Bool, true, false, none, some, List, [], ◌∷◌, ◌++◌, ◌≡◌, ◌≢◌, refl, arith, length,
  str_eq, eq_iff, All,
}
use mathlib.Core.List.{append-nil, append_assoc}
use redka.Core.{Error, Result, ok, err, Time}
use redka.Schema.{Db}
use redka.Sqlx.{exec_tx}
use redka.Reply.{Reply, string_reply, array}
use redka.Server.{
  Commands, Outside, parsed, new_state, run_all, after_run, handle_multi, handle, multi, serve,
  serve_all,
}
use redka.Server.Idle.{but_last-append}

abbrev pub is_ok : {A : Type 0} → Result A → Bool
is_ok (ok a) = true
is_ok (err e) = false

module _ (c : Commands) where
  open c use {Request, Cmd, norm_name, parse_request, run_tx, run_db}

  -- a request that is queued inside MULTI, with its command
  abbrev pub Queues : Request × Outside × Cmd → Type 0
  Queues (q, o, cmd) =
      (parse_request q ≡ parsed cmd)
      × (norm_name q ≢ "multi")
      × (norm_name q ≢ "exec")
      × (norm_name q ≢ "discard")

  abbrev pub requests : List (Request × Outside × Cmd) → List (Request × Outside)
  requests [] = []
  requests ((q, o, cmd) ∷ qs) = (q, o) ∷ requests qs

  abbrev pub commands : List (Request × Outside × Cmd) → List Cmd
  commands [] = []
  commands ((q, o, cmd) ∷ qs) = cmd ∷ commands qs

  abbrev pub queued : List (Request × Outside × Cmd) → List Reply
  queued [] = []
  queued (x ∷ qs) = string_reply "QUEUED" ∷ queued qs

  ne_test : (a b : String) → a ≢ b → str_eq a b ≡ false
  ne_test a b ne = ground (arith, eq_iff a b)

  serve_queued :
      (q : Request) (o : Outside) (cmd : Cmd) (cs : List Cmd) (db : Db)
      → Queues (q, o, cmd)
      → serve c q o (record { conn = record { in_multi = true; cmds = cs }; db = db })
        ≡ some (
          string_reply "QUEUED" ∷ [],
          record { conn = record { in_multi = true; cmds = cs ++ cmd ∷ [] }; db = db },
        )
  unfolding serve multi
  serve_queued q o cmd cs db (p, m, e, d) = rw p (rw (ne_test _ _ m, ne_test _ _ e, ne_test _ _ d))

  serve_exec :
      (q : Request) (o : Outside) (cmd : Cmd) (cs : List Cmd) (db : Db)
      → parse_request q ≡ parsed cmd
      → norm_name q ≡ "exec"
      → serve c q o (record { conn = record { in_multi = true; cmds = cs }; db = db })
        ≡ some (
          array (length cs) ∷ (handle_multi c cs o db).0,
          record { conn = new_state; db = (handle_multi c cs o db).1 },
        )
  unfolding serve multi handle
  serve_exec q o cmd cs db p n = rw (p, n) (rw (but_last-append cs cmd))

  serve_multi :
      (q : Request) (cmd : Cmd) (o : Outside) (db : Db)
      → parse_request q ≡ parsed cmd
      → norm_name q ≡ "multi"
      → serve c q o (record { conn = new_state; db = db })
        ≡ some (
          string_reply "OK" ∷ [],
          record { conn = record { in_multi = true; cmds = [] }; db = db },
        )
  unfolding serve multi
  serve_multi q cmd o db p n = rw (p, n)

  -- the requests of a batch that began, up to EXEC
  serve_all-queued :
      (qs : List (Request × Outside × Cmd)) (exec_q : Request) (o : Outside) (exec_cmd : Cmd)
      (cs : List Cmd) (db : Db)
      → All Queues qs
      → parse_request exec_q ≡ parsed exec_cmd
      → norm_name exec_q ≡ "exec"
      → serve_all c
          (requests qs ++ (exec_q, o) ∷ [])
          (record { conn = record { in_multi = true; cmds = cs }; db = db })
        ≡ (let all = cs ++ commands qs in
            some (
              queued qs ++ (array (length all) ∷ (handle_multi c all o db).0),
              record { conn = new_state; db = (handle_multi c all o db).1 },
            ))
  unfolding serve_all
  serve_all-queued [] exec_q o exec_cmd cs db h p n =
      rw (serve_exec exec_q o exec_cmd cs db p n) (simp append-nil)
  serve_all-queued ((q, o', cmd) ∷ qs) exec_q o exec_cmd cs db h p n =
      rw (serve_queued q o' cmd cs db h.0)
        (rw (serve_all-queued qs exec_q o exec_cmd (cs ++ cmd ∷ []) db h.1 p n) (simp append_assoc))

  -- MULTI, any requests that are queued, and EXEC, on an idle connection: the replies are OK, QUEUED
  -- for each request, the array header with their number, and what the commands write; the tables
  -- are those of one transaction of all the commands, and the connection is idle again.
  pub serve_batch :
      (multi_q : Request) (multi_cmd : Cmd) (qs : List (Request × Outside × Cmd)) (exec_q : Request)
      (exec_cmd : Cmd) (o' o : Outside) (db : Db)
      → parse_request multi_q ≡ parsed multi_cmd
      → norm_name multi_q ≡ "multi"
      → All Queues qs
      → parse_request exec_q ≡ parsed exec_cmd
      → norm_name exec_q ≡ "exec"
      → serve_all c
          ((multi_q, o') ∷ (requests qs ++ (exec_q, o) ∷ []))
          (record { conn = new_state; db = db })
        ≡ some (
          string_reply "OK"
              ∷ (queued qs
                  ++ (array (length (commands qs)) ∷ (handle_multi c (commands qs) o db).0)),
          record { conn = new_state; db = (handle_multi c (commands qs) o db).1 },
        )
  unfolding serve_all
  serve_batch multi_q multi_cmd qs exec_q exec_cmd o' o db mp mn h ep en =
      rw (serve_multi multi_q multi_cmd o' db mp mn)
        (rw (serve_all-queued qs exec_q o exec_cmd [] db h ep en))

  -- two continuations that agree where the second one fails
  after_run_failed :
      (r : List Reply × Result Unit × Db) (f g : Db → List Reply × Result Unit × Db) (e : Error)
      → ((db : Db) → (f db).1 ≡ err e → g db ≡ f db)
      → (after_run c r f).1 ≡ err e
      → after_run c r g ≡ after_run c r f
  after_run_failed (out, ok u, db) f g e same h = rw (same db h)
  after_run_failed (out, err e', db) f g e same h = refl

  run_all_failed :
      (cs : List Cmd) (bad : Cmd) (rest : List Cmd) (clocks : ℕ → ℕ → Time) (db : Db) (e : Error)
      → (run_all c (cs ++ bad ∷ []) clocks db).1 ≡ err e
      → run_all c (cs ++ bad ∷ rest) clocks db ≡ run_all c (cs ++ bad ∷ []) clocks db
  unfolding run_all
  run_all_failed [] bad rest clocks db e h =
      after_run_failed (run_tx bad (clocks 0) db) _ _ e (λ db' h'. cc) h
  run_all_failed (x ∷ cs) bad rest clocks db e h =
      after_run_failed (run_tx x (clocks 0) db) _ _ e
        (λ db' h'. run_all_failed cs bad rest (λ i. clocks (suc i)) db' e h') h

  -- If the transaction begins and the run of some commands and one more ends with an error, then
  -- EXEC of them with further commands behind them writes what that run writes and nothing else,
  -- and leaves the tables as before.
  pub failed_batch :
      (cs : List Cmd) (bad : Cmd) (rest : List Cmd) (o : Outside) (db : Db) (e : Error)
      → o.tx.begin ≡ none
      → (run_all c (cs ++ bad ∷ []) o.clocks db).1 ≡ err e
      → handle_multi c (cs ++ bad ∷ rest) o db ≡ ((run_all c (cs ++ bad ∷ []) o.clocks db).0, db)
  unfolding handle_multi exec_tx
  failed_batch cs bad rest o db e b h =
      ground (arith, b, h, run_all_failed cs bad rest o.clocks db e h)
