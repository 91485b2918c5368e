-- ===== src/Sandbox/ApkBuild/Download/Chains.antt =====
-- The requests that `tick` of src/sandbox/apk-build/apk-build.service.ts makes, one after the other.
use bolder_vibes_backend.Common.{
  ℕ, zero, suc, ◌+◌, ◌≤◌, String, ◌≡◌, refl, sym, true, Option, none, some, arith, ltb, ok, err,
  is_some, Option-cases, inl, Bool-cases, inr, subst, Result-cases, Result, ◌≢◌, false,
}
use bolder_vibes_backend.Sandbox.ApkBuild.{too_many_redirects}
use bolder_vibes_backend.Sandbox.ApkBuild.Run.{
  Response, Body, not_https, broken, silent, answered, whole, stalled, Download, gave_up, redirect,
  is_200, after, tick,
}

module _ (get : String → Response) (join_url : String → String → Option String) where
  -- A chain of that many redirects leads from one address to another.
  pub data Reaches : ℕ → String → String → Type 0 where
    here : {url : String} → Reaches 0 url url
    further :
        {url l u last : String} {status : Option ℕ} {location : Option String} {body : Body} {n : ℕ}
        → get url ≡ answered status location body
        → redirect status location ≡ some l
        → join_url l url ≡ some u
        → Reaches n u last
        → Reaches (suc n) url last

  -- At most five redirects lead to an answer with status 200 and a body of that size.
  pub data Arrives (url : String) (size : ℕ) : Type 0 where
    lands :
        {last : String} {status : Option ℕ} {location : Option String} {n : ℕ}
        → n ≤ 5
        → Reaches n url last
        → get last ≡ answered status location (whole size)
        → redirect status location ≡ none
        → is_200 status ≡ true
        → Arrives url size

  -- At most five redirects lead to a server that does not answer, to a file whose body does not end,
  -- to a location that is no URL, or, behind a redirect, to an address that is not https.
  pub data Hangs (url : String) : Type 0 where
    unanswered :
        {last : String} {n : ℕ} → n ≤ 5 → Reaches n url last → get last ≡ silent → Hangs url
    unfinished :
        {last : String} {status : Option ℕ} {location : Option String} {n : ℕ}
        → n ≤ 5
        → Reaches n url last
        → get last ≡ answered status location stalled
        → redirect status location ≡ none
        → is_200 status ≡ true
        → Hangs url
    nowhere :
        {last l : String} {status : Option ℕ} {location : Option String} {body : Body} {n : ℕ}
        → n ≤ 5
        → Reaches n url last
        → get last ≡ answered status location body
        → redirect status location ≡ some l
        → join_url l last ≡ none
        → Hangs url
    insecure :
        {last : String} {n : ℕ}
        → 1 ≤ n
        → n ≤ 5
        → Reaches n url last
        → get last ≡ not_https
        → Hangs url

  abbrev pub after_get : ℕ → String → Result Download String
  after_get hops url = after get join_url hops url (get url)

  after-redirect :
      (hops : ℕ) (url l u : String) (status : Option ℕ) (location : Option String) (body : Body)
      → get url ≡ answered status location body
      → redirect status location ≡ some l
      → join_url l url ≡ some u
      → after_get hops url ≡ ok u
  unfolding after
  after-redirect hops url l u status location body e r j = ground arith

  -- Going on is following a redirect.
  redirect-of :
      (hops : ℕ) (url u last : String) (n : ℕ) (a : Response)
      → get url ≡ a
      → after get join_url hops url a ≡ ok u
      → Reaches n u last
      → Reaches (suc n) url last
  unfolding after
  redirect-of hops url u last n not_https e h w = absurd (ground arith)
  redirect-of hops url u last n broken e h w = absurd (ground arith)
  redirect-of hops url u last n silent e h w = absurd (ground arith)
  redirect-of hops url u last n (answered status location body) e h w =
      elim (Option-cases (redirect status location)) [
        | inl r ↦ absurd (ground arith)
        | inr (l, r) ↦ elim (Option-cases (join_url l url)) [
          | inl j ↦ absurd (ground arith)
          | inr (v, j) ↦
              let same : v ≡ u = ground arith in
              further e r j (subst (λ z. Reaches n z last) (sym same) w)
        ]
      ]

  pub tick_ends :
      (fuel hops : ℕ) (url : String)
      → hops ≤ 6
      → 7 ≤ fuel + hops
      → is_some (tick get join_url fuel url hops) ≡ true
  unfolding tick
  tick_ends zero hops url b f = absurd (omega arith)
  tick_ends (suc fuel) hops url b f = elim (Bool-cases (ltb 5 hops)) [
    | inl far ↦ rw far refl
    | inr near ↦ elim (Result-cases (after_get hops url)) [
      | inl (d, e) ↦ rw (near, e) refl
      | inr (u, e) ↦ rw (near, e) (tick_ends fuel (hops + 1) u (ground arith) (omega arith))
    ]
  ]

  -- An end that is not one of too many redirects is what a request within the limit came to.
  pub tick_found :
      (fuel hops : ℕ) (url : String) (d : Download)
      → tick get join_url fuel url hops ≡ some d
      → d ≢ gave_up too_many_redirects
      → (n : ℕ) × (last : String) × (n + hops ≤ 5)
        × Reaches n url last
        × (after_get (n + hops) last ≡ err d)
  unfolding tick
  tick_found zero hops url d e other = absurd (ground arith)
  tick_found (suc fuel) hops url d e other = elim (Bool-cases (ltb 5 hops)) [
    | inl far ↦ absurd (other (ground arith))
    | inr near ↦ elim (Result-cases (after_get hops url)) [
      | inl (x, ended) ↦ (0, url, ground arith, here, ground arith)
      | inr (u, went) ↦
          let rest : tick get join_url fuel u (hops + 1) ≡ some d = ground arith in
          let (n, last, within, w, end) = tick_found fuel (hops + 1) u d rest other in
          (
            suc n,
            last,
            omega arith,
            redirect-of hops url u last n (get url) refl went w,
            subst (λ k. after_get k last ≡ err d) (omega arith) end,
          )
    ]
  ]

  pub tick_finds :
      (fuel hops n : ℕ) (url last : String) (d : Download)
      → Reaches n url last
      → n + hops ≤ 5
      → 7 ≤ fuel + hops
      → after_get (n + hops) last ≡ err d
      → tick get join_url fuel url hops ≡ some d
  unfolding tick
  tick_finds zero hops n url last d w b f e = absurd (omega arith)
  tick_finds (suc fuel) hops zero url last d here b f e =
      let near : ltb 5 hops ≡ false = ground arith in
      let end : after_get hops url ≡ err d = subst (λ k. after_get k url ≡ err d) (omega arith) e in
      rw (near, end) refl
  tick_finds (suc fuel) hops (suc n) url last d (further g r j w) b f e =
      let near : ltb 5 hops ≡ false = ground arith in
      let went = after-redirect hops url _ _ _ _ _ g r j in
      rw (near, went)
        (tick_finds fuel (hops + 1) n _ last d w (omega arith) (omega arith)
          (subst (λ k. after_get k last ≡ err d) (omega arith) e))
