-- ===== src/Chat/Streams/Invariant.antt =====
-- What holds of the streams of src/conversations/chat-ai.service.ts over every interleaving.
use bolder_vibes_backend.Common.{
  ℕ, ◌+◌, ◌<◌, ◌≡◌, refl, sym, ap, ◌∙◌, subst, inl, inr, Bool, true, false, not, Option, none, some,
  List, [], ◌∷◌, arith, ◌==◌, ==_iff, ==_refl, if◌then◌else◌, has, filter, All, Option-cases,
  Bool-cases,
}
use mathlib.Core.Option.{some-injective}
use bolder_vibes_backend.Chat.Streams.{
  Stream, Streams, StreamOp, begin, abort, finish, put, abort_entry, is_controller, begin_stream,
  abort_chat, finish_stream, stream_step, stream_steps,
}

-- A running stream that is not aborted is the registered one of its conversation.
abbrev Registered : Streams → Stream → Type 0
Registered s x =
    (x.controller < s.next)
    × (has x.controller s.aborted ≡ false → s.active x.conversation_id ≡ some x.controller)

record Inv (s : Streams) : Type 0 where
  registered : All (Registered s) s.running
  aborted_made : (c : ℕ) → has c s.aborted ≡ true → c < s.next
  active_made : (k c : ℕ) → s.active k ≡ some c → c < s.next

All-weaken :
    (s s' : Streams) (xs : List Stream)
    → ((x : Stream) → Registered s x → Registered s' x)
    → All (Registered s) xs
    → All (Registered s') xs
All-weaken s s' [] f h = tt
All-weaken s s' (x ∷ xs) f h = (f x h.0, All-weaken s s' xs f h.1)

abort_entry-live :
    (o : Option ℕ) (c : ℕ) (aborted : List ℕ)
    → has c (abort_entry o aborted) ≡ false
    → (has c aborted ≡ false) × (is_controller o c ≡ false)
abort_entry-live none c aborted h = (h, refl)
abort_entry-live (some d) c aborted h = (ground arith, ground arith)

abort_entry-made :
    (o : Option ℕ) (c n : ℕ) (aborted : List ℕ)
    → ((d : ℕ) → o ≡ some d → d < n)
    → (has c aborted ≡ true → c < n)
    → has c (abort_entry o aborted) ≡ true
    → c < n
abort_entry-made none c n aborted f g h = g h
abort_entry-made (some d) c n aborted f g h = elim (Bool-cases (d == c)) [
  | inl e ↦ subst (λ z. z < n) ((==_iff d c).0 e) (f d refl)
  | inr ne ↦ g (ground arith)
]

-- The registered controller is the entry's.
is_controller-at :
    (k j c : ℕ) (m : ℕ → Option ℕ) → (k == j) ≡ true → m j ≡ some c → is_controller (m k) c ≡ true
is_controller-at k j c m e at =
    let it : m k ≡ some c = subst (λ z. m z ≡ some c) (sym ((==_iff k j).0 e)) at in
    rw (it, ==_refl c) refl

put-made :
    (k j c n : ℕ) (v : Option ℕ) (m : ℕ → Option ℕ)
    → ((d : ℕ) → v ≡ some d → d < n)
    → ((d : ℕ) → m j ≡ some d → d < n)
    → put k v m j ≡ some c
    → c < n
put-made k j c n v m f g e = elim (Bool-cases (k == j)) [
  | inl hit ↦ f c (ground arith)
  | inr miss ↦ g c (ground arith)
]

lt_suc : (a n : ℕ) → a < n → a < n + 1
lt_suc a n b = omega arith

begin-Inv : (k : ℕ) (s : Streams) → Inv s → Inv (begin_stream k s)
unfolding begin_stream
begin-Inv k s h = record {
  registered = (
    (omega arith, λ live. ground arith),
    All-weaken s (begin_stream k s) s.running
        (λ x (made, own). (
          omega arith,
          λ live.
              let (old, not_it) = abort_entry-live (s.active k) x.controller s.aborted live in
              elim (Bool-cases (k == x.conversation_id)) [
                | inl here ↦
                    let it =
                      is_controller-at k x.conversation_id x.controller s.active here (own old) in
                    absurd (ground arith)
                | inr elsewhere ↦ rw elsewhere (own old)
              ],
        ))
        h.registered,
  );
  aborted_made = λ c e.
      lt_suc c s.next
        (abort_entry-made (s.active k) c s.next s.aborted (h.active_made k) (h.aborted_made c) e);
  active_made = λ j c e.
      put-made k j c (s.next + 1) (some s.next) s.active
        (λ d same. let it = some-injective _ _ same in omega (arith, it))
        (λ d there. lt_suc d s.next (h.active_made j d there)) e;
}

-- A stream is taken out of the map, and is aborted.
aborted_streams : ℕ → ℕ → Streams → Streams
aborted_streams k c s = record s { active = put k none s.active; aborted = c ∷ s.aborted }

aborted-Inv : (k c : ℕ) (s : Streams) → s.active k ≡ some c → Inv s → Inv (aborted_streams k c s)
unfolding aborted_streams
aborted-Inv k c s there h = record {
  registered =
      All-weaken s (aborted_streams k c s) s.running
        (λ x (made, own). (
          made,
          λ live. elim (Bool-cases (k == x.conversation_id)) [
            | inl here ↦
                let it =
                  is_controller-at k x.conversation_id x.controller s.active here
                    (own (ground arith)) in
                absurd (ground arith)
            | inr elsewhere ↦ rw elsewhere (own (ground arith))
          ],
        ))
        h.registered;
  aborted_made = λ d e.
      abort_entry-made (some c) d s.next s.aborted (λ z same. h.active_made k z (there ∙ same))
        (h.aborted_made d) e;
  active_made = λ j d e.
      put-made k j d s.next none s.active (λ z same. absurd (ground arith)) (h.active_made j) e;
}

not_aborted : (k : ℕ) (s : Streams) → s.active k ≡ none → (abort_chat k s).1 ≡ s
unfolding abort_chat
not_aborted k s e = ground arith

chat_aborted :
    (k c : ℕ) (s : Streams) → s.active k ≡ some c → (abort_chat k s).1 ≡ aborted_streams k c s
unfolding abort_chat aborted_streams
chat_aborted k c s e = ground arith

abort-Inv : (k : ℕ) (s : Streams) → Inv s → Inv (abort_chat k s).1
abort-Inv k s h = elim (Option-cases (s.active k)) [
  | inl none_active ↦ rw (not_aborted k s none_active) h
  | inr (c, there) ↦ rw (chat_aborted k c s there) (aborted-Inv k c s there h)
]

filter-hit :
    (p : Stream → Bool) (y : Stream) (ys : List Stream)
    → p y ≡ true
    → filter p (y ∷ ys) ≡ y ∷ filter p ys
filter-hit p y ys e = ground arith

filter-miss :
    (p : Stream → Bool) (y : Stream) (ys : List Stream)
    → p y ≡ false
    → filter p (y ∷ ys) ≡ filter p ys
filter-miss p y ys e = ground arith

All-filter :
    (s s' : Streams) (p : Stream → Bool) (xs : List Stream)
    → ((y : Stream) → p y ≡ true → Registered s y → Registered s' y)
    → All (Registered s) xs
    → All (Registered s') (filter p xs)
All-filter s s' p [] f h = tt
All-filter s s' p (y ∷ ys) f h = elim (Bool-cases (p y)) [
  | inl e ↦ rw (filter-hit p y ys e) (f y e h.0, All-filter s s' p ys f h.1)
  | inr e ↦ rw (filter-miss p y ys e) (All-filter s s' p ys f h.1)
]

-- Another stream's entry stays.
entry-kept :
    (x y : Stream) (m : ℕ → Option ℕ)
    → (y.controller == x.controller) ≡ false
    → m y.conversation_id ≡ some y.controller
    → (if is_controller (m x.conversation_id) x.controller then put x.conversation_id none m else m)
        y.conversation_id
      ≡ some y.controller
entry-kept x y m ne own = elim (Bool-cases (is_controller (m x.conversation_id) x.controller)) [
  | inr other ↦ rw other own
  | inl hit ↦ elim (Bool-cases (x.conversation_id == y.conversation_id)) [
    | inl here ↦
        let it : m x.conversation_id ≡ some y.controller =
          subst (λ z. m z ≡ some y.controller)
            (sym ((==_iff x.conversation_id y.conversation_id).0 here)) own in
        absurd (ground arith)
    | inr elsewhere ↦ rw (hit, elsewhere) own
  ]
]

entry-made :
    (x : Stream) (j c n : ℕ) (m : ℕ → Option ℕ)
    → ((d : ℕ) → m j ≡ some d → d < n)
    → (if is_controller (m x.conversation_id) x.controller then put x.conversation_id none m else m)
        j
      ≡ some c
    → c < n
entry-made x j c n m f e = elim (Bool-cases (is_controller (m x.conversation_id) x.controller)) [
  | inl hit ↦
      put-made x.conversation_id j c n none m (λ z same. absurd (ground arith)) f (ground arith)
  | inr other ↦ f c (ground arith)
]

finish-Inv : (x : Stream) (s : Streams) → Inv s → Inv (finish_stream x s)
unfolding finish_stream
finish-Inv x s h = record {
  registered =
      All-filter s (finish_stream x s) (λ y. not (y.controller == x.controller)) s.running
        (λ y other (made, own). (made, λ live. entry-kept x y s.active (ground arith) (own live)))
        h.registered;
  aborted_made = h.aborted_made;
  active_made = λ j c e. entry-made x j c s.next s.active (h.active_made j) e;
}

step-Inv : (op : StreamOp) (s : Streams) → Inv s → Inv (stream_step op s)
unfolding stream_step
step-Inv (begin k) s h = begin-Inv k s h
step-Inv (abort k) s h = abort-Inv k s h
step-Inv (finish x) s h = finish-Inv x s h

steps-Inv : (ops : List StreamOp) (s : Streams) → Inv s → Inv (stream_steps ops s)
unfolding stream_steps
steps-Inv [] s h = h
steps-Inv (op ∷ ops) s h = steps-Inv ops (stream_step op s) (step-Inv op s h)

abbrev pub no_streams : Streams
no_streams = record { next = 0; active = λ k. none; aborted = []; running = [] }

no_streams-Inv : Inv no_streams
no_streams-Inv = record {
  registered = tt;
  aborted_made = λ c e. absurd (ground arith);
  active_made = λ k c e. absurd (ground arith);
}

-- Whether a stream is among those that run.
pub data Member (x : Stream) : List Stream → Type 0 where
  first : {xs : List Stream} → Member x (x ∷ xs)
  later : {y : Stream} {xs : List Stream} → Member x xs → Member x (y ∷ xs)

Registered-of :
    (s : Streams) (x : Stream) (xs : List Stream)
    → All (Registered s) xs
    → Member x xs
    → Registered s x
Registered-of s x [] h m = elim m [ ]
Registered-of s x (y ∷ ys) h first = h.0
Registered-of s x (y ∷ ys) h (later m) = Registered-of s x ys h.1 m

-- After any interleaving of new messages, aborts and ends of streams: a running stream that is not
-- aborted is the one that `abortChat` of its conversation aborts, so no conversation has two of them.
pub stream_steps-one_live :
    (ops : List StreamOp) (x y : Stream)
    → let s = stream_steps ops no_streams in
      Member x s.running
      → Member y s.running
      → has x.controller s.aborted ≡ false
      → has y.controller s.aborted ≡ false
      → x.conversation_id ≡ y.conversation_id
      → (x.controller ≡ y.controller)
        × (has x.controller (abort_chat x.conversation_id s).1.aborted ≡ true)
unfolding aborted_streams
stream_steps-one_live ops x y at_x at_y live_x live_y same =
    let s = stream_steps ops no_streams in
    let h = steps-Inv ops no_streams no_streams-Inv in
    let a = (Registered-of s x s.running h.registered at_x).1 live_x in
    let b = (Registered-of s y s.running h.registered at_y).1 live_y in
    (
      some-injective _ _ (sym a ∙ ap s.active same ∙ b),
      rw (chat_aborted x.conversation_id x.controller s a) (rw (==_refl x.controller) refl),
    )
