-- ===== src/Limited/Conn/Deliver.antt =====
-- Write delivers its buffer, whole and in order, or stops with an error after a prefix of it.
use native.Mathlib.Nat.{zero-add}
use go_openbmclapi.Prelude.{
  ℕ, zero, suc, ◌∙◌, ◌+◌, ◌-◌, ◌≤◌, ◌<◌, ◌≡◌, ◌⊎◌, refl, ap, Bool, true, false, Option, none, some,
  List, [], ◌∷◌, ◌++◌, arith, ltb, ltb→lt, Bool-cases, inl, inr, length, take, drop, length-drop,
  length-take,
}
use go_openbmclapi.Prelude.Int.{ℤ, pos, pos_part, ltb_ℤ}
use go_openbmclapi.Limited.Rate.{RateController, pre_write}
use go_openbmclapi.Limited.Rate.PreWrite.{Limits, granted, pre_write-Limits, pre_write_bounds}
use go_openbmclapi.Limited.Conn.{
  Error, Times, gives_up, next_after, Sink, World, Written, after_chunk, write_loop, write,
}

-- What io.Writer promises: it takes no more than it is given, and all of it unless it has an error.
pub record IsWriter (s : Sink) : Type 0 where
  pub no_more : (i : ℕ) (p : List ℕ) → (s i p).0 ≤ length p
  pub all_or_error : (i : ℕ) (p : List ℕ) → (s i p).1 ≡ none → (s i p).0 ≡ length p

-- The controller limits writes with a rate and a least rate above 0, which no other user changes.
pub record IsLimiting (rate least : ℕ) (l : RateController) : Type 0 where
  pub count : ℕ
  pub limits : Limits l rate least count

take-nil : (m : ℕ) → take {A = ℕ} m [] ≡ []
take-nil zero = refl
take-nil (suc m) = refl

take-take-drop : (n m : ℕ) (xs : List ℕ) → take n xs ++ take m (drop n xs) ≡ take (n + m) xs
take-take-drop zero m xs = rw zero-add
take-take-drop (suc n) m [] = cc (take-nil m, take-nil (suc n + m))
take-take-drop (suc n) m (x ∷ xs) =
    let e : suc n + m ≡ suc (n + m) = omega arith in
    rw e (ap (λ ys. x ∷ ys) (take-take-drop n m xs))

take-take : (n m : ℕ) (xs : List ℕ) → n ≤ m → take n (take m xs) ≡ take n xs
take-take zero m xs h = refl
take-take (suc n) zero xs h = absurd (omega arith)
take-take (suc n) (suc m) [] h = refl
take-take (suc n) (suc m) (x ∷ xs) h = ap (λ ys. x ∷ ys) (take-take n m xs (omega arith))

pub take_all : (n : ℕ) (xs : List ℕ) → length xs ≤ n → take n xs ≡ xs
take_all zero [] h = refl
take_all zero (x ∷ xs) h = elim h [ ]
take_all (suc n) [] h = refl
take_all (suc n) (x ∷ xs) h = ap (λ ys. x ∷ ys) (take_all n xs (omega arith))

abbrev pub failed : Option Error → Bool
failed none = false
failed (some _) = true

-- The bytes taken are the first `n` of the buffer, which is all of it or comes with an error.
abbrev pub IsPrefixOf : List ℕ → Written → Type 0
IsPrefixOf buf out =
    (out.taken ≡ take out.result.n buf)
    × (out.result.n ≤ length buf)
    × ((out.result.n ≡ length buf) ⊎ (failed out.result.error ≡ true))

-- What a chunk adds: the first n0 of the m bytes from n on.
chunk_added :
    (n m n0 : ℕ) (buf : List ℕ)
    → n ≤ length buf
    → n0 ≤ length (take m (drop n buf))
    → (take n buf ++ take n0 (take m (drop n buf)) ≡ take (n + n0) buf) × (n + n0 ≤ length buf)
chunk_added n m n0 buf le h = (
  rw (take-take n0 m (drop n buf) (omega (arith, length-take m (drop n buf))))
      (take-take-drop n n0 buf),
  omega (arith, length-take m (drop n buf), length-drop n buf),
)

after_chunk-prefix :
    (buf : List ℕ) (n m : ℕ) (r : ℕ × Option Error) (go_on : ℕ → List ℕ → Option Written)
    (out : Written)
    → n ≤ length buf
    → r.0 ≤ length (take m (drop n buf))
    → ((n' : ℕ) → n' ≤ length buf → go_on n' (take n' buf) ≡ some out → IsPrefixOf buf out)
    → after_chunk n (take n buf) (take m (drop n buf)) r go_on ≡ some out
    → IsPrefixOf buf out
after_chunk-prefix buf n m (n0, none) go_on out le fits later e =
    let (added, le') = chunk_added n m n0 buf le fits in later (n + n0) le' (rw added at e)
after_chunk-prefix buf n m (n0, some er) go_on out le fits later e =
    let (added, le') = chunk_added n m n0 buf le fits in ground (arith, added)

-- Whatever happens, the bytes that the writer has taken are the first n of the buffer.
pub write_loop-prefix :
    (fuel i : ℕ) (w : World) (buf : List ℕ) (n : ℕ) (t : Times) (l : RateController) (out : Written)
    → IsWriter w.sink
    → n ≤ length buf
    → write_loop fuel i w buf n (take n buf) t l ≡ some out
    → IsPrefixOf buf out
unfolding write_loop
write_loop-prefix zero i w buf n t l out ok le e = ground arith
write_loop-prefix (suc fuel) i w buf n t l0 out ok le e = elim (Bool-cases (ltb n (length buf))) [
  | inr all ↦ ground arith
  | inl more ↦ elim (Bool-cases (gives_up t (w.clock i).wait_at)) [
    | inl late ↦ ground arith
    | inr go ↦ elim (Bool-cases (ltb_ℤ (pos 0) m)) [
      | inr idle ↦ write_loop-prefix fuel (i + 1) w buf n t' granted.1 out ok le (ground arith)
      | inl some_bytes ↦
          after_chunk-prefix buf n (pos_part m) (w.sink i chunk)
            (λ n' taken'. write_loop fuel (i + 1) w buf n' taken' t' granted.1) out le
            (ok.no_more i chunk)
            (λ n' le' e'. write_loop-prefix fuel (i + 1) w buf n' t' granted.1 out ok le' e')
            (ground arith)
    ]
  ]
]
  where
    granted : (ℤ × ℤ) × RateController
    granted = pre_write (pos (length buf - n)) (w.clock i).grant_at (w.others i l0)

    m : ℤ
    m = granted.0.0

    chunk : List ℕ
    chunk = take (pos_part m) (drop n buf)

    t' : Times
    t' = record t { after = next_after granted.0.1 (w.clock i).set_at }

-- The progress of one round, under a controller that limits writes and gives up on nothing.
abbrev pub IsPatient : Times → Type 0
IsPatient t = t.deadline ≡ 0

pub never_gives_up : (t : Times) (now : ℕ) → IsPatient t → gives_up t now ≡ false
unfolding gives_up
never_gives_up t now h = ground arith

-- The other users of the controller leave it a limiting one, with the same rates.
pub record KeepsLimits (w : World) (rate least : ℕ) : Type 0 where
  pub keeps :
      (i : ℕ) (l : RateController) (count : ℕ)
      → Limits l rate least count
      → IsLimiting rate least (w.others i l)

-- The loop of write, from any progress n, delivers the whole buffer without an error: under the
-- conditions of write_delivers below, and with one unit of fuel for each byte that is left.
pub write_loop-delivers :
    (fuel i : ℕ) (w : World) (buf : List ℕ) (n : ℕ) (t : Times) (l : RateController)
    (rate least count : ℕ)
    → IsWriter w.sink
    → ((j : ℕ) (p : List ℕ) → (w.sink j p).1 ≡ none)
    → KeepsLimits w rate least
    → 0 < least
    → Limits l rate least count
    → IsPatient t
    → n ≤ length buf
    → length buf ≤ n + fuel
    → write_loop fuel i w buf n (take n buf) t l
      ≡ some (record { result = record { n = length buf; error = none }; taken = buf })
unfolding write_loop
write_loop-delivers zero i w buf n t l rate least count ok good keep pos' lim patient le enough =
    ground (arith, take_all n buf)
write_loop-delivers (suc fuel) i w buf n t l0 rate least count ok good keep pos' lim patient le
      enough =
    elim (Bool-cases (ltb n (length buf))) [
      | inr all ↦ ground (arith, take_all n buf, all)
      | inl more ↦
          let l = w.others i l0 in
          let lim' = keep.keeps i l0 count lim in
          let now = (w.clock i).grant_at in
          let (m, granted, some_bytes, fits, _) =
            pre_write_bounds l rate least lim'.count (length buf - n) now lim'.limits
              (omega (arith, ltb→lt n (length buf) more)) pos' in
          let chunk = take m (drop n buf) in
          let whole : (w.sink i chunk).0 ≡ m =
            ok.all_or_error i chunk (good i chunk)
            ∙ omega (arith, length-take m (drop n buf), length-drop n buf) in
          let t' : Times = record t {
            after = next_after (pre_write (pos (length buf - n)) now l).0.1 (w.clock i).set_at;
          } in
          let ih =
            write_loop-delivers fuel (i + 1) w buf (n + m) t'
              (pre_write (pos (length buf - n)) now l).1 rate least _ ok good keep pos'
              (pre_write-Limits l rate least lim'.count (length buf - n) now lim'.limits
                (omega (arith, ltb→lt n (length buf) more)))
              patient (omega arith) (omega arith) in
          ground (
            arith,
            more,
            never_gives_up t (w.clock i).wait_at patient,
            granted,
            some_bytes,
            whole,
            good i chunk,
            ih,
            (chunk_added n m m buf le
                (omega (arith, length-take m (drop n buf), length-drop n buf))).0,
          )
    ]

-- If the connection takes at most each chunk, and all of it unless it answers an error, and a write
-- of a buffer that is not empty returns, then what the connection took is a prefix of the buffer,
-- of the length that the write reports, and is all of it if no error is reported.
pub write_prefix :
    (fuel : ℕ) (w : World) (b : ℕ) (rest : List ℕ) (t : Times) (l : RateController) (out : Written)
    → IsWriter w.sink
    → write fuel w (b ∷ rest) t l ≡ some out
    → IsPrefixOf (b ∷ rest) out
unfolding write
write_prefix fuel w b rest t l out ok e =
    write_loop-prefix fuel 0 w (b ∷ rest) 0 t l out ok (omega arith) e

-- Let the connection take all of each chunk and never fail; let the controller keep its limits,
-- with a positive least rate, also whatever other connections do to it between the rounds; and let
-- no write deadline be set. Then a write of a buffer that is not empty terminates, with the bytes
-- of the buffer as fuel: it reports the whole length and no error, and the connection took exactly
-- the buffer.
pub write_delivers :
    (w : World) (b : ℕ) (rest : List ℕ) (t : Times) (l : RateController) (rate least count : ℕ)
    → IsWriter w.sink
    → ((j : ℕ) (p : List ℕ) → (w.sink j p).1 ≡ none)
    → KeepsLimits w rate least
    → 0 < least
    → Limits l rate least count
    → IsPatient t
    → write (length (b ∷ rest)) w (b ∷ rest) t l
      ≡ some (record { result = record { n = length (b ∷ rest); error = none }; taken = b ∷ rest })
unfolding write
write_delivers w b rest t l rate least count ok good keep positive lim patient =
    write_loop-delivers (length (b ∷ rest)) 0 w (b ∷ rest) 0 t l rate least count ok good keep
      positive lim patient (omega arith) (omega arith)
