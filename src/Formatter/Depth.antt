-- ===== src/Formatter/Depth.antt =====
-- What a list of calls does to the depth of a formatter, and why no `assert` fails.
use bri_ck.Prelude.{
  ℕ, zero, suc, ◌+◌, ◌*◌, ◌^◌, ◌<◌, ◌≡◌, refl, Option, none, some, [], ◌∷◌, ◌++◌, arith, ◌>>=◌,
  codes,
}
use bri_ck.Formatter.{
  Formatter, Doc, write, nbsp, indent, outdent, lparen, rparen, line, exec, run, put,
}

-- The depth after the calls, on numbers that do not wrap. `none`: a call of `outdent` at a depth
-- below 2.
unfoldable pub shift : Doc → ℕ → Option ℕ
shift [] n = some n
shift (write t ∷ d) n = shift d n
shift (nbsp ∷ d) n = shift d n
shift (line ∷ d) n = shift d n
shift (indent ∷ d) n = shift d (suc (suc n))
shift (lparen ∷ d) n = shift d (suc (suc n))
shift (outdent ∷ d) (suc (suc n)) = shift d n
shift (outdent ∷ d) n = none
shift (rparen ∷ d) (suc (suc n)) = shift d n
shift (rparen ∷ d) n = none

-- The number of calls that raise the depth.
unfoldable pub opens : Doc → ℕ
opens [] = 0
opens (indent ∷ d) = suc (opens d)
opens (lparen ∷ d) = suc (opens d)
opens (_ ∷ d) = opens d

-- The calls can be made at every depth and restore it.
abbrev pub IsBalanced : Doc → Type 0
IsBalanced d = (n : ℕ) → shift d n ≡ some n

pub shift-append : (d e : Doc) (n : ℕ) → shift (d ++ e) n ≡ (shift d n >>= shift e)
unfolding shift
shift-append [] e n = refl
shift-append (write t ∷ d) e n = shift-append d e n
shift-append (nbsp ∷ d) e n = shift-append d e n
shift-append (line ∷ d) e n = shift-append d e n
shift-append (indent ∷ d) e n = shift-append d e (suc (suc n))
shift-append (lparen ∷ d) e n = shift-append d e (suc (suc n))
shift-append (outdent ∷ d) e (suc (suc n)) = shift-append d e n
shift-append (outdent ∷ d) e (suc zero) = refl
shift-append (outdent ∷ d) e zero = refl
shift-append (rparen ∷ d) e (suc (suc n)) = shift-append d e n
shift-append (rparen ∷ d) e (suc zero) = refl
shift-append (rparen ∷ d) e zero = refl

-- The formatter that `run` reaches, with the depth that `shift` predicts.
abbrev pub Reaches : Doc → Formatter → ℕ → Type 0
Reaches d s n = (s' : Formatter) × (run d s ≡ some s') × (s'.depth ≡ n)

exec-outdent :
    (s : Formatter) (m : ℕ) → s.depth ≡ suc (suc m) → exec outdent s ≡ some (record s { depth = m })
unfolding exec
exec-outdent s m e = ground arith

exec-rparen :
    (s : Formatter) (m : ℕ)
    → s.depth ≡ suc (suc m)
    → exec rparen s ≡ some (put (codes ")") (record s { depth = m }))
unfolding exec
exec-rparen s m e = ground arith

run-shift_from :
    (d : Doc) (s : Formatter) (m n : ℕ)
    → s.depth ≡ m
    → m + 2 * opens d < 2 ^ 32
    → shift d m ≡ some n
    → Reaches d s n
unfolding run shift opens
run-shift_from [] s m n e b h = (s, refl, ground arith)
run-shift_from (write t ∷ d) s m n e b h = run-shift_from d _ m n e b h
run-shift_from (nbsp ∷ d) s m n e b h = run-shift_from d _ m n e b h
run-shift_from (line ∷ d) s m n e b h = run-shift_from d _ m n e b h
run-shift_from (indent ∷ d) s m n e b h =
    run-shift_from d _ (suc (suc m)) n (omega arith) (omega arith) h
run-shift_from (lparen ∷ d) s m n e b h =
    run-shift_from d _ (suc (suc m)) n (omega arith) (omega arith) h
run-shift_from (outdent ∷ d) s (suc (suc m)) n e b h =
    rw (exec-outdent s m e) (run-shift_from d _ m n refl (omega arith) h)
run-shift_from (outdent ∷ d) s (suc zero) n e b h = cc
run-shift_from (outdent ∷ d) s zero n e b h = cc
run-shift_from (rparen ∷ d) s (suc (suc m)) n e b h =
    rw (exec-rparen s m e) (run-shift_from d _ m n refl (omega arith) h)
run-shift_from (rparen ∷ d) s (suc zero) n e b h = cc
run-shift_from (rparen ∷ d) s zero n e b h = cc

-- If the depth cannot wrap and `shift` meets no `outdent` below 2, then no `assert` of the formatter
-- fails, and the run ends at the depth that `shift` gives.
pub run-shift :
    (d : Doc) (s : Formatter) (n : ℕ)
    → s.depth + 2 * opens d < 2 ^ 32
    → shift d s.depth ≡ some n
    → Reaches d s n
run-shift d s n b h = run-shift_from d s s.depth n refl b h

-- Balanced calls, made where the depth cannot wrap, fail no `assert` and restore the depth.
pub run-IsBalanced :
    (d : Doc) (s : Formatter) → s.depth + 2 * opens d < 2 ^ 32 → IsBalanced d → Reaches d s s.depth
run-IsBalanced d s b h = run-shift d s s.depth b (h s.depth)
