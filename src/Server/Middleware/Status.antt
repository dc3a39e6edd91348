-- ===== src/Server/Middleware/Status.antt =====
-- Which status the log's response writer records.
use youtube_ar.Base.{
  ℕ, String, List, [], ◌∷◌, ◌==◌, ◌≡◌, ◌≢◌, refl, sym, ap, ◌∙◌, arith, Bool, true, false,
  if◌then◌else◌, ◌++◌, Option, none, some,
}
use youtube_ar.Server.Http.{Write, set_header, write_header, write}
use youtube_ar.Server.Middleware.{
  ResponseWriter, forward, on_write_header, on_write, on_writes, logged,
}

-- The status line that net/http sends for a handler's calls: that of the first WriteHeader, or 200
-- where a Write comes before any; `none` where there is neither.
unfoldable pub sent : List Write → Option ℕ
sent [] = none
sent (set_header k v ∷ calls) = sent calls
sent (write_header code ∷ calls) = some code
sent (write p ∷ calls) = some 200

-- A WriteHeader of a code that is no status is a panic of net/http.
abbrev pub AreStatuses : List Write → Type 0
AreStatuses [] = Unit
AreStatuses (write_header code ∷ calls) = (code ≢ 0) × AreStatuses calls
AreStatuses (_ ∷ calls) = AreStatuses calls

abbrev pub recorded : Option ℕ → ℕ
recorded none = 0
recorded (some code) = code

is_zero_of_ne : (n : ℕ) → n ≢ 0 → (n == 0) ≡ false
is_zero_of_ne n h = ground arith

on_write_header_kept :
    (code : ℕ) (rw : ResponseWriter) → rw.code ≢ 0 → (on_write_header code rw).code ≡ rw.code
on_write_header_kept code w h = rw (is_zero_of_ne w.code h) refl

on_write_header_first :
    (code : ℕ) (rw : ResponseWriter) → rw.code ≡ 0 → (on_write_header code rw).code ≡ code
on_write_header_first code w h = rw h refl

on_write-kept :
    (p : String) (rw : ResponseWriter) → rw.code ≢ 0 → on_write (write p) rw ≡ forward (write p) rw
unfolding on_write
on_write-kept p w h = rw (on_write, is_zero_of_ne w.code h) refl

on_write-first :
    (p : String) (rw : ResponseWriter)
    → rw.code ≡ 0
    → on_write (write p) rw ≡ forward (write p) (on_write_header 200 rw)
unfolding on_write
on_write-first p w h = rw (on_write, ap (λ n. n == 0) h) refl

on_writes_kept :
    (calls : List Write) (rw : ResponseWriter) → rw.code ≢ 0 → (on_writes calls rw).code ≡ rw.code
unfolding on_writes
on_writes_kept [] w h = refl
on_writes_kept (set_header k v ∷ calls) w h = on_writes_kept calls _ h
on_writes_kept (write_header code ∷ calls) w h =
    let same = on_write_header_kept code w h in
    on_writes_kept calls (on_write_header code w) (λ e. h (sym same ∙ e)) ∙ same
on_writes_kept (write p ∷ calls) w h =
    ap (λ x. (on_writes calls x).code) (on_write-kept p w h)
    ∙ on_writes_kept calls (forward (write p) w) h

on_writes-sent :
    (calls : List Write) (rw : ResponseWriter)
    → rw.code ≡ 0
    → AreStatuses calls
    → (on_writes calls rw).code ≡ recorded (sent calls)
unfolding on_writes sent
on_writes-sent [] w zero_code h = zero_code
on_writes-sent (set_header k v ∷ calls) w zero_code h = on_writes-sent calls _ zero_code h
on_writes-sent (write_header code ∷ calls) w zero_code (status, h) =
    let first = on_write_header_first code w zero_code in
    on_writes_kept calls (on_write_header code w) (λ e. status (sym first ∙ e)) ∙ first
on_writes-sent (write p ∷ calls) w zero_code h =
    let first = on_write_header_first 200 w zero_code in
    let go =
      on_writes_kept calls (forward (write p) (on_write_header 200 w))
        (λ e. two_hundred (sym first ∙ e)) in
    ap (λ x. (on_writes calls x).code) (on_write-first p w zero_code) ∙ go ∙ first
  where
    two_hundred : ◌≢◌ {A = ℕ} 200 0
    two_hundred e = omega (arith, e)

abbrev or_else : Option ℕ → Option ℕ → Option ℕ
or_else (some code) later = some code
or_else none later = later

or_else-none : (first : Option ℕ) → or_else first none ≡ first
or_else-none (some code) = refl
or_else-none none = refl

sent-snoc :
    (l : List Write) (call : Write) (later : Option ℕ)
    → or_else (sent (l ++ call ∷ [])) later ≡ or_else (sent l) (or_else (sent (call ∷ [])) later)
unfolding sent
sent-snoc [] call later = refl
sent-snoc (set_header k v ∷ l) call later = sent-snoc l call later
sent-snoc (write_header code ∷ l) call later = refl
sent-snoc (write p ∷ l) call later = refl

sent-written :
    (p : String) (rw : ResponseWriter) (later : Option ℕ) (first : Bool)
    → or_else (sent ((if first then on_write_header 200 rw else rw).calls ++ write p ∷ [])) later
      ≡ or_else (sent rw.calls) (some 200)
unfolding sent
sent-written p w later true =
    sent-snoc (w.calls ++ write_header 200 ∷ []) (write p) later
    ∙ sent-snoc w.calls (write_header 200) (some 200)
sent-written p w later false = sent-snoc w.calls (write p) later

sent-on_writes :
    (calls : List Write) (rw : ResponseWriter)
    → sent (on_writes calls rw).calls ≡ or_else (sent rw.calls) (sent calls)
unfolding on_writes on_write sent
sent-on_writes [] w = sym (or_else-none (sent w.calls))
sent-on_writes (set_header k v ∷ calls) w =
    sent-on_writes calls (forward (set_header k v) w)
    ∙ sent-snoc w.calls (set_header k v) (sent calls)
sent-on_writes (write_header code ∷ calls) w =
    sent-on_writes calls (on_write_header code w)
    ∙ sent-snoc w.calls (write_header code) (sent calls)
sent-on_writes (write p ∷ calls) w =
    sent-on_writes calls (on_write (write p) w) ∙ sent-written p w (sent calls) (w.code == 0)

-- Where a handler calls WriteHeader or Write, in any order and number, with codes that are not 0, the
-- status that the middleware logs is the one that the client gets, by the calls that reach the writer
-- below: that of the first WriteHeader, or 200 where a Write comes before. The client gets the status
-- that the handler's calls stand for. Where the handler calls neither, the middleware logs 0.
pub logged_sent :
    (calls : List Write)
    → AreStatuses calls
    → ((logged calls).code ≡ recorded (sent (logged calls).calls))
      × (sent (logged calls).calls ≡ sent calls)
unfolding logged sent
logged_sent calls h =
    let same = sent-on_writes calls _ in
    (on_writes-sent calls _ refl h ∙ ap recorded (sym same), same)
