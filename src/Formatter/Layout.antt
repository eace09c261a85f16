-- ===== src/Formatter/Layout.antt =====
-- What a list of calls writes: the text of its calls, spaces and line breaks apart, and the
-- placement of the spaces.
use bri_ck.Prelude.{
  ℕ, zero, suc, ◌-◌, ◌≡◌, refl, ap, inl, inr, Bool, true, false, none, some, [], ◌∷◌, ◌++◌, arith,
  ◌==◌, Option-cases, Text, codes, replicate, append_assoc, append-nil, if◌then◌else◌,
}
use mathlib.Core.Path.{◌≡⟨◌⟩◌, ◌∎}
use bri_ck.Formatter.{
  Formatter, Op, Doc, write, nbsp, indent, outdent, lparen, rparen, line, exec, run, put,
}

-- The bytes with the spaces and line breaks taken out.
pub ink : Text → Text
ink [] = []
ink (c ∷ t) = if c == 32 then ink t else if c == 10 then ink t else c ∷ ink t

-- What the calls write themselves.
unfoldable pub text : Doc → Text
text [] = []
text (write t ∷ d) = t ++ text d
text (lparen ∷ d) = 40 ∷ text d
text (rparen ∷ d) = 41 ∷ text d
text (_ ∷ d) = text d

pub text-append : (a b : Doc) → text (a ++ b) ≡ text a ++ text b
unfolding text
text-append [] b = refl
text-append (write t ∷ a) b = rw (text-append a b, append_assoc)
text-append (lparen ∷ a) b = ap (λ t. 40 ∷ t) (text-append a b)
text-append (rparen ∷ a) b = ap (λ t. 41 ∷ t) (text-append a b)
text-append (nbsp ∷ a) b = text-append a b
text-append (indent ∷ a) b = text-append a b
text-append (outdent ∷ a) b = text-append a b
text-append (line ∷ a) b = text-append a b

pub ink-append : (a b : Text) → ink (a ++ b) ≡ ink a ++ ink b
unfolding ink
ink-append [] b = refl
ink-append (c ∷ a) b = ground (arith, ink-append a b)

ink-replicate : (n : ℕ) → ink (replicate n 32) ≡ []
unfolding ink
ink-replicate zero = refl
ink-replicate (suc n) = ink-replicate n

ink-indentation : (b : Bool) (n : ℕ) → ink (if b then replicate n 32 else []) ≡ []
unfolding ink
ink-indentation true n = ink-replicate n
ink-indentation false n = refl

ink-put : (t : Text) (s : Formatter) → ink (put t s).out ≡ ink s.out ++ ink t
unfolding put
ink-put t s = simp (ink-append, ink-replicate, ink-indentation, append-nil)

-- A step that an `assert` guards, and that is made.
some-eq_some : {s s' : Formatter} → some s ≡ some s' → s'.out ≡ s.out
some-eq_some {s} {s'} h = let e : s' ≡ s = cc in ap Formatter.out e

guard-eq_some :
    (b : Bool) (s : Formatter) {s' : Formatter}
    → (if b then none else some s) ≡ some s'
    → s'.out ≡ s.out
guard-eq_some true s h = cc
guard-eq_some false s h = some-eq_some h

ink-exec :
    (o : Op) (s : Formatter) {s' : Formatter}
    → exec o s ≡ some s'
    → ink s'.out ≡ ink s.out ++ ink (text (o ∷ []))
unfolding exec text ink
ink-exec (write t) s h = rw (some-eq_some h, append-nil) (ink-put t s)
ink-exec nbsp s h = rw (some-eq_some h, append-nil)
ink-exec indent s h = rw (some-eq_some h, append-nil)
ink-exec outdent s h = rw (guard-eq_some _ _ h, append-nil)
ink-exec lparen s h = rw (some-eq_some h) (ink-put _ s)
ink-exec rparen s h =
    rw (guard-eq_some _ _ h) (ink-put (codes ")") (record s { depth = s.depth - 2 }))
ink-exec line s h = rw (some-eq_some h) (ink-append s.out _)

text-cons : (o : Op) (d : Doc) → text (o ∷ d) ≡ text (o ∷ []) ++ text d
unfolding text
text-cons (write t) d = rw append-nil
text-cons lparen d = refl
text-cons rparen d = refl
text-cons _ d = refl

pub run-cons :
    (o : Op) (d : Doc) (s : Formatter) {s' : Formatter}
    → run (o ∷ d) s ≡ some s'
    → (u : Formatter) × (exec o s ≡ some u) × (run d u ≡ some s')
unfolding run
run-cons o d s h = elim (Option-cases (exec o s)) [
  | inl e ↦ cc (rw e at h)
  | inr (u, e) ↦ (u, e, rw e at h)
]

-- What reaches the output is what the calls write, in order: the layout adds and drops nothing but
-- spaces and line breaks.
pub ink-run :
    (d : Doc) (s : Formatter) {s' : Formatter}
    → run d s ≡ some s'
    → ink s'.out ≡ ink s.out ++ ink (text d)
unfolding run
ink-run [] s h = rw (some-eq_some h) (unfold ink text in rw append-nil)
ink-run (o ∷ d) s {s'} h =
    let (u, e, r) = run-cons o d s h in
    ink s'.out
    ≡⟨ ink-run d u r ⟩ ink u.out ++ ink (text d)
    ≡⟨ (rw (ink-exec o s e, append_assoc, ← ink-append (text (o ∷ [])), ← text-cons)) ⟩
      ink s.out ++ ink (text (o ∷ d)) ∎
