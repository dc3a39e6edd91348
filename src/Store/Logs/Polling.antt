-- ===== src/Store/Logs/Polling.antt =====
-- A client that polls the log of a url while lines are appended to it.
use mathlib.Core.List.{append-nil, append_assoc}
use mathlib.Core.Path.{subst}
use youtube_ar.Base.{
  length-drop, drop-all, drop-append, err-ne-ok, ℕ, ◌+◌, ◌≤◌, ◌<◌, List, [], ◌∷◌, ◌++◌, Result, ok,
  err, Context, ◌≡◌, refl, sym, ap, ◌∙◌, arith, drop, filter, length, length-append, Result-cases,
  inl, inr,
}
use youtube_ar.Model.{Log}
use youtube_ar.Resource.{new_logs}
use youtube_ar.Sql.{Querier}
use youtube_ar.Sql.Meaning.{UrlRow, Tables}
use youtube_ar.Sql.Postgres.{Postgres}
use youtube_ar.Store.{append_log, append_log_statement, list_logs, list_logs_statement}
use youtube_ar.Store.Logs.{
  has_id, IsRow, logs_of, logs_from, logged_row, logs_of-logged_row, filter-true, append_log-IsRow,
  polled,
}

abbrev pub two_64 : ℕ
two_64 = 18446744073709551616

-- A line is appended, or the client asks for what is new.
pub data Call : Type 0 where
  appends : Context → Log → Call
  polls : Context → Call

pub record Client : Type 0 where
  pub cursor : ℕ
  pub seen : List Log

abbrev pub new_client : Client
new_client = record { cursor = 0; seen = [] }

-- The answer is added to what the client has, and its cursor kept; an error changes nothing.
abbrev pub answered : Client → Result (List Log) → Client
answered k (ok logs) = record {
  cursor = (new_logs logs k.cursor).next_cursor;
  seen = k.seen ++ logs;
}
answered k (err e) = k

abbrev pub stored_lines : Log → Result (Unit {0}) → List Log
stored_lines log (ok _) = log ∷ []
stored_lines log (err e) = []

-- After an answer the cursor is at the end of the log.
read_cursor :
    (k : Client) (new logs : List Log)
    → k.cursor ≤ length logs
    → length logs < two_64
    → new ≡ drop k.cursor logs
    → (answered k (ok new)).cursor ≡ length logs
unfolding new_logs
read_cursor k new logs low small e =
    omega (arith, ap (length {0}) e, length-drop k.cursor logs low, low, small)

module _ (db : Querier) (id : ℕ) where
  unfoldable pub run : List Call → Client → db.Conn → Client × db.Conn
  unfolding append_log list_logs
  run [] k c = (k, c)
  run (appends ctx log ∷ calls) k c = run calls k (append_log db ctx id log c).1
  run (polls ctx ∷ calls) k c =
      let (logs, c') = list_logs db ctx id (logs_from k.cursor) c in run calls (answered k logs) c'

  -- The lines whose AppendLog succeeds.
  unfoldable pub appended : List Call → Client → db.Conn → List Log
  unfolding append_log list_logs
  appended [] k c = []
  appended (appends ctx log ∷ calls) k c =
      let (result, c') = append_log db ctx id log c in
      stored_lines log result ++ appended calls k c'
  appended (polls ctx ∷ calls) k c =
      let (logs, c') = list_logs db ctx id (logs_from k.cursor) c in
      appended calls (answered k logs) c'

  module _ (pg : Postgres db) where
    -- What the client has and what it has still to read are the log.
    abbrev Follows : Client → db.Conn → List Log → Type 0
    Follows k c logs =
        (r : UrlRow) × IsRow id (pg.tables c) r
        × (logs_of r ≡ logs)
        × (k.cursor ≤ length logs)
        × (k.seen ++ drop k.cursor logs ≡ logs)

    Follows-appends :
        (ctx : Context) (log : Log) (k : Client) (c : db.Conn) (logs : List Log)
        → Follows k c logs
        → let (result, c') = append_log db ctx id log c in
          Follows k c' (logs ++ stored_lines log result)
    Follows-appends ctx log k c logs (r, one, same, low, has) =
        elim (Result-cases (append_log db ctx id log c).0) [
          | inl (_, h) ↦
              let longer =
                logs_of-logged_row pg.search (pg.clock c) id log r (filter-true id _ r one) in
              rw h (
                logged_row pg.search (pg.clock c) id log r,
                append_log-IsRow db pg id ctx log c r one h,
                longer ∙ ap (λ l. l ++ log ∷ []) same,
                omega (arith, low, length-append logs (log ∷ [])),
                ap (λ l. k.seen ++ l) (drop-append k.cursor logs (log ∷ []) low)
                    ∙ sym (append_assoc k.seen _ _)
                    ∙ ap (λ l. l ++ log ∷ []) has,
              )
          | inr (e, h) ↦
              let unchanged : pg.tables (append_log db ctx id log c).1 ≡ pg.tables c =
                unfold append_log in
                pg.exec_err ctx (append_log_statement id log) c (λ k. err-ne-ok e tt (sym h ∙ k)) in
              rw (h, append-nil logs)
                (r, ap (λ (t : Tables). filter (has_id id) t.urls) unchanged ∙ one, same, low, has)
        ]

    Follows-polls :
        (ctx : Context) (k : Client) (c : db.Conn) (logs : List Log)
        → length logs < two_64
        → Follows k c logs
        → let (answer, c') = list_logs db ctx id (logs_from k.cursor) c in
          Follows (answered k answer) c' logs
    Follows-polls ctx k c logs small (r, one, same, low, has) =
        let unchanged : pg.tables (list_logs db ctx id (logs_from k.cursor) c).1 ≡ pg.tables c =
          unfold list_logs in
          pg.query_logs_reads ctx (list_logs_statement id (logs_from k.cursor)) c in
        let still = ap (λ (t : Tables). filter (has_id id) t.urls) unchanged ∙ one in
        elim (Result-cases (list_logs db ctx id (logs_from k.cursor) c).0) [
          | inl (new, h) ↦
              let rest = polled db pg id ctx k.cursor c r new one h ∙ ap (drop k.cursor) same in
              let end = read_cursor k new logs low small rest in
              rw (h, end)
                (
                  r,
                  still,
                  same,
                  omega arith,
                  ap (λ l. (k.seen ++ l) ++ drop (length logs) logs) rest
                      ∙ ap (λ l. l ++ drop (length logs) logs) has
                      ∙ ap (λ l. logs ++ l) (drop-all logs)
                      ∙ append-nil logs,
                )
          | inr (e, h) ↦ rw h (r, still, same, low, has)
        ]

    length-stored_lines :
        (logs : List Log) (log : Log) (a : Result (Unit {0}))
        → length (logs ++ stored_lines log a) ≤ length logs + 1
    length-stored_lines logs log (ok _) = omega (arith, length-append logs (log ∷ []))
    length-stored_lines logs log (err e) = omega (arith, ap (length {0}) (append-nil logs))

    run-Follows :
        (calls : List Call) (k : Client) (c : db.Conn) (logs : List Log)
        → length logs + length calls < two_64
        → Follows k c logs
        → let (k', c') = run calls k c in Follows k' c' (logs ++ appended calls k c)
    unfolding run appended
    run-Follows [] k c logs small follows = rw (append-nil logs) follows
    run-Follows (appends ctx log ∷ calls) k c logs small follows =
        let result = (append_log db ctx id log c).0 in
        let c' = (append_log db ctx id log c).1 in
        let more =
          run-Follows calls k c' (logs ++ stored_lines log result)
            (omega (arith, small, length-stored_lines logs log result))
            (Follows-appends ctx log k c logs follows) in
        subst (Follows (run calls k c').0 (run calls k c').1)
          (append_assoc logs (stored_lines log result) (appended calls k c')) more
    run-Follows (polls ctx ∷ calls) k c logs small follows =
        let answer = (list_logs db ctx id (logs_from k.cursor) c).0 in
        let c' = (list_logs db ctx id (logs_from k.cursor) c).1 in
        run-Follows calls (answered k answer) c' logs (omega (arith, small))
          (Follows-polls ctx k c logs (omega (arith, small)) follows)

    -- Over any sequence of AppendLog and ListLogs on one row, in which any of them may fail, a client
    -- that polls with the cursor of the last answer it got has, with its next answer, each line of the
    -- log once and in order: those that the row had and those that were appended since. The row is the
    -- only one with the id, and the log stays below 2 ^ 64 lines.
    pub polling_complete :
        (calls : List Call) (c : db.Conn) (r : UrlRow) (ctx : Context) (logs : List Log)
        → IsRow id (pg.tables c) r
        → length (logs_of r) + length calls < two_64
        → let (k, c') = run calls new_client c in
          (list_logs db ctx id (logs_from k.cursor) c').0 ≡ ok logs
          → k.seen ++ logs ≡ logs_of r ++ appended calls new_client c
    polling_complete calls c r ctx logs one small h =
        let (k, c') = run calls new_client c in
        let (r', one', same, low, has) =
          run-Follows calls new_client c (logs_of r) small (r, one, refl, omega arith, refl) in
        ap (λ l. k.seen ++ l)
          (polled db pg id ctx k.cursor c' r' logs one' h ∙ ap (drop k.cursor) same)
        ∙ has
