-- ===== src/Logger/Recorded.antt =====
-- What `LogMiddleware` of util/logger.go records of a response, compared with what net/http sends.
use runner_controller_micros.Base.{
  ℕ, ◌+◌, ◌%◌, ◌<◌, String, Bool, true, false, ◌≡◌, refl, subst, ap, ◌∙◌, sym, List, [], ◌∷◌, ◌++◌,
  nat_eq, arith, if◌then◌else◌, inl, inr,
}
use mathlib.Core.List.{append-nil, append_assoc, map-append}
use runner_controller_micros.Logger.Client.{Request}
use runner_controller_micros.Logger.Middleware.{
  Call, write_header, write, flush, Handler, finished, sets_status, writes, flushes, Writer, fresh,
  int_range, on_write_header, on_write, serve_http, log_middleware,
}
use runner_controller_micros.Logger.Statuses.{
  sent, SetsOnce, IsLastStatus, zero_add, once_more, IsLastStatus-sent,
}

module _ (taken : List Call → String → ℕ × Bool) where
  -- The calls that a handler makes, after the calls `before`, of a writer that can be flushed or not.
  unfoldable pub calls : Bool → List Call → Handler → List Call
  calls can before finished = []
  calls can before (sets_status c next) =
      write_header c ∷ calls can (before ++ (write_header c ∷ [])) next
  calls can before (writes b next) =
      write b ∷ calls can (before ++ (write b ∷ [])) (next (taken before b))
  calls true before (flushes next) = flush ∷ calls true (before ++ (flush ∷ [])) (next true)
  calls false before (flushes next) = calls false before (next false)

  -- The bytes that the client got, after the calls `before`.
  unfoldable pub bytes : List Call → List Call → ℕ
  bytes before [] = 0
  bytes before (write_header c ∷ cs) = bytes (before ++ (write_header c ∷ [])) cs
  bytes before (write b ∷ cs) = (taken before b).0 + bytes (before ++ (write b ∷ [])) cs
  bytes before (flush ∷ cs) = bytes (before ++ (flush ∷ [])) cs

  passed-serve_http :
      (h : Handler) (w : Writer)
      → (serve_http taken h w).passed ≡ w.passed ++ calls false w.passed h
  unfolding serve_http calls
  passed-serve_http finished w = sym (append-nil w.passed)
  passed-serve_http (sets_status c next) w =
      passed-serve_http next (on_write_header c w)
      ∙ unfold on_write_header in (append_assoc w.passed (write_header c ∷ []) _)
  passed-serve_http (writes b next) w =
      let result = taken w.passed b in
      passed-serve_http (next result) (on_write b result.0 w)
      ∙ unfold on_write in (append_assoc w.passed (write b ∷ []) _)
  passed-serve_http (flushes next) w = passed-serve_http (next false) w

  size-serve_http :
      (h : Handler) (w : Writer)
      → w.size < int_range
      → (serve_http taken h w).size ≡ (w.size + bytes w.passed (calls false w.passed h)) % int_range
  unfolding serve_http calls bytes on_write_header on_write
  size-serve_http finished w h = omega arith
  size-serve_http (sets_status c next) w h = size-serve_http next (on_write_header c w) h
  size-serve_http (writes b next) w h =
      let result = taken w.passed b in
      let rest = size-serve_http (next result) (on_write b result.0 w) (omega arith) in
      rest ∙ omega arith
  size-serve_http (flushes next) w h = size-serve_http (next false) w h

  -- One more part of the body.
  IsLastStatus-write :
      (status : ℕ) (cs : List Call) (b : String)
      → IsLastStatus status cs
      → IsLastStatus (if nat_eq status 0 then 200 else status) (cs ++ (write b ∷ []))
  IsLastStatus-write status cs b (bs, inl (split, e)) = (
    bs ++ (b ∷ []),
    inl (
      ap (λ l. l ++ (write b ∷ [])) split ∙ simp map-append,
      ap (λ n. if nat_eq n 0 then 200 else n) e ∙ once_more 0 bs b,
    ),
  )
  IsLastStatus-write status cs b (bs, inr (before, c, split, e)) = (
    bs ++ (b ∷ []),
    inr (
      before,
      c,
      ap (λ l. l ++ (write b ∷ [])) split ∙ simp (map-append, append_assoc),
      ap (λ n. if nat_eq n 0 then 200 else n) e ∙ once_more c bs b,
    ),
  )

  status-serve_http :
      (h : Handler) (w : Writer)
      → IsLastStatus w.status_code w.passed
      → IsLastStatus (serve_http taken h w).status_code (serve_http taken h w).passed
  unfolding serve_http on_write_header on_write
  status-serve_http finished w l = l
  status-serve_http (sets_status c next) w l =
      status-serve_http next (on_write_header c w) ([], inr (w.passed, c, refl, refl))
  status-serve_http (writes b next) w l =
      let result = taken w.passed b in
      status-serve_http (next result) (on_write b result.0 w)
        (IsLastStatus-write w.status_code w.passed b l)
  status-serve_http (flushes next) w l = status-serve_http (next false) w l

  -- Behind `LogMiddleware` every handler makes the calls that it makes of a writer that cannot be
  -- flushed. The status of the entry is the one that was set last, or 200 if that is 0 or none and a
  -- part of the body follows; the size is the number of the bytes taken, as an int of 64 bits.
  pub log_middleware-recorded :
      {Query : Type 0} (req : Request Query) (h : Handler)
      → ((log_middleware taken req h).1 ≡ calls false [] h)
        × IsLastStatus (log_middleware taken req h).0.status (calls false [] h)
        × ((log_middleware taken req h).0.response_size ≡ bytes [] (calls false [] h) % int_range)
  unfolding log_middleware
  log_middleware-recorded req h = (
    passed-serve_http h fresh,
    subst (IsLastStatus (serve_http taken h fresh).status_code) (passed-serve_http h fresh)
        (status-serve_http h fresh ([], inl (refl, refl))),
    size-serve_http h fresh (omega arith)
        ∙ ap (λ n. n % int_range) (zero_add (bytes [] (calls false [] h))),
  )

  -- For a handler that behind `LogMiddleware` sets its status first, if at all, and once, and that
  -- sends something, the entry has the status that the client gets.
  pub log_middleware-sent :
      {Query : Type 0} (req : Request Query) (h : Handler)
      → SetsOnce (calls false [] h)
      → (log_middleware taken req h).0.status ≡ sent (log_middleware taken req h).1
  log_middleware-sent req h once =
      let (passed, last, _) = log_middleware-recorded req h in
      IsLastStatus-sent (calls false [] h) once _ last ∙ ap sent (sym passed)
