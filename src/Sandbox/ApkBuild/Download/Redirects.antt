-- ===== src/Sandbox/ApkBuild/Download/Redirects.antt =====
-- How the downloads of `downloadFile` in src/sandbox/apk-build/apk-build.service.ts end.
use bolder_vibes_backend.Common.{
  ℕ, ◌+◌, ◌≤◌, String, ◌≡◌, refl, ◌↔◌, true, Option, none, some, arith, err, is_some, Option-cases,
  inl, ◌∙◌, inr, subst,
}
use bolder_vibes_backend.Sandbox.ApkBuild.Run.{
  Response, Body, not_https, broken, silent, answered, whole, cut_off, stalled, arrived,
  never_settles, redirect, is_200, landing, after, tick, download_file,
}
use bolder_vibes_backend.Sandbox.ApkBuild.Download.Chains.{
  Reaches, Arrives, Hangs, lands, unanswered, unfinished, nowhere, insecure, after_get, tick_ends,
  tick_found, tick_finds,
}

landing-arrived :
    (status : Option ℕ) (location : Option String) (body : Body) (size : ℕ)
    → landing status body ≡ arrived size
    → answered status location body ≡ answered status location (whole size)
landing-arrived status location (whole n) size e = ground arith
landing-arrived status location cut_off size e = ground arith
landing-arrived status location stalled size e = ground arith

landing-stalled :
    (status : Option ℕ) (location : Option String) (body : Body)
    → landing status body ≡ never_settles
    → answered status location body ≡ answered status location stalled
landing-stalled status location (whole n) e = ground arith
landing-stalled status location cut_off e = ground arith
landing-stalled status location stalled e = refl

module _ (get : String → Response) (join_url : String → String → Option String) where
  -- Where an answer is a file of that size, the request was answered with one.
  lands-of :
      (hops : ℕ) (url : String) (size : ℕ) (a : Response)
      → after get join_url hops url a ≡ err (arrived size)
      → (status : Option ℕ) × (location : Option String) × (a
          ≡ answered status location (whole size))
        × (redirect status location ≡ none)
        × (is_200 status ≡ true)
  unfolding after
  lands-of hops url size not_https e = absurd (ground arith)
  lands-of hops url size broken e = absurd (ground arith)
  lands-of hops url size silent e = absurd (ground arith)
  lands-of hops url size (answered status location body) e =
      elim (Option-cases (redirect status location)) [
        | inl r ↦ (
          status,
          location,
          landing-arrived status location body size (ground arith),
          r,
          ground arith,
        )
        | inr (l, r) ↦ elim (Option-cases (join_url l url)) [
          | inl j ↦ absurd (ground arith)
          | inr (v, j) ↦ absurd (ground arith)
        ]
      ]

  Arrives-of :
      (url : String) (size : ℕ)
      → tick get join_url 7 url 0 ≡ some (arrived size)
      → Arrives get join_url url size
  Arrives-of url size e =
      let (n, last, within, w, end) =
        tick_found get join_url 7 0 url (arrived size) e (ground arith) in
      let (status, location, g, r, good) = lands-of (n + 0) last size (get last) end in
      lands (omega arith) w g r good

  Arrives-arrived :
      (url : String) (size : ℕ)
      → Arrives get join_url url size
      → tick get join_url 7 url 0 ≡ some (arrived size)
  unfolding after
  Arrives-arrived url size (lands {last = last} {n = n} b w g r good) =
      tick_finds get join_url 7 0 n url last (arrived size) w (omega arith) (omega arith)
        (ground arith)

  stuck_found :
      (url last : String) (n : ℕ) (a : Response)
      → n ≤ 5
      → Reaches get join_url n url last
      → get last ≡ a
      → after get join_url n last a ≡ err never_settles
      → Hangs get join_url url
  unfolding after
  stuck_found url last n not_https b w g e = insecure (ground arith) b w g
  stuck_found url last n broken b w g e = absurd (ground arith)
  stuck_found url last n silent b w g e = unanswered b w g
  stuck_found url last n (answered status location body) b w g e =
      elim (Option-cases (redirect status location)) [
        | inl r ↦
            unfinished b w (g ∙ landing-stalled status location body (ground arith)) r
              (ground arith)
        | inr (l, r) ↦ elim (Option-cases (join_url l last)) [
          | inl j ↦ nowhere b w g r j
          | inr (v, j) ↦ absurd (ground arith)
        ]
      ]

  Hangs-of :
      (url : String) → tick get join_url 7 url 0 ≡ some never_settles → Hangs get join_url url
  Hangs-of url e =
      let (n, last, within, w, end) =
        tick_found get join_url 7 0 url never_settles e (ground arith) in
      stuck_found url last n (get last) (omega arith) w refl
        (subst (λ k. after_get get join_url k last ≡ err never_settles) (omega arith) end)

  stuck_at :
      (url last : String) (n : ℕ)
      → n ≤ 5
      → Reaches get join_url n url last
      → after_get get join_url (n + 0) last ≡ err never_settles
      → tick get join_url 7 url 0 ≡ some never_settles
  stuck_at url last n b w e =
      tick_finds get join_url 7 0 n url last never_settles w (omega arith) (omega arith) e

  Hangs-never_settles :
      (url : String) → Hangs get join_url url → tick get join_url 7 url 0 ≡ some never_settles
  unfolding after
  Hangs-never_settles url (unanswered {last = last} {n = n} b w g) =
      stuck_at url last n b w (rw g refl)
  Hangs-never_settles url (unfinished {last = last} {n = n} b w g r good) =
      stuck_at url last n b w (ground arith)
  Hangs-never_settles url (nowhere {last = last} {n = n} b w g r j) =
      stuck_at url last n b w (ground arith)
  Hangs-never_settles url (insecure {last = last} {n = n} some_hop b w g) =
      stuck_at url last n b w (ground arith)

  -- The limit on redirects bounds every download: the fuel is never used up. A download gives a file
  -- of that size exactly when at most five redirects lead to an answer with status 200 that has it.
  -- It neither succeeds nor fails exactly when they lead to a server that does not answer, to a file
  -- whose body does not end, to a location that is no URL, or, from the first redirect on, to an
  -- address that is not https. What arrives can be written to the disk.
  pub download_file_iff :
      (url : String) (size : ℕ)
      → (is_some (download_file get join_url url) ≡ true)
        × ((download_file get join_url url ≡ some (arrived size)) ↔ Arrives get join_url url size)
        × ((download_file get join_url url ≡ some never_settles) ↔ Hangs get join_url url)
  unfolding download_file
  download_file_iff url size = (
    tick_ends get join_url 7 0 url (omega arith) (omega arith),
    (Arrives-of url size, Arrives-arrived url size),
    (Hangs-of url, Hangs-never_settles url),
  )
