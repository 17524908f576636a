-- ===== src/Buffer/Contents.antt =====
-- A buffer as a queue of bytes: what its operations do to its source.
use rdss.Base.{
  ℕ, zero, suc, ◌+◌, ◌-◌, ◌≤◌, ◌≡◌, refl, ap, ◌∙◌, sym, Bool, true, false, [], ◌∷◌, ◌++◌, Bytes,
  ◌==◌, length, take, drop, replicate, arith, length-append, length-replicate, length-take,
  Bool-cases, inl, inr, subst,
}
use rdss.Buffer.{
  Buffer, make_room_for, available, ensure_available, write_sink, produce, source, consume,
}

-- What is read was written, and what was written is in the memory or in the view.
pub record IsValid (b : Buffer) : Type 0 where
  pub ordered : b.read_index ≤ b.write_index
  pub inside : b.virtual_view ≡ false → b.write_index ≤ length b.data_
  pub viewed : b.virtual_view ≡ true → b.write_index ≡ length b.view

take-drop_append :
    (n r : ℕ) (xs ys : Bytes) → r + n ≤ length xs → take n (drop r (xs ++ ys)) ≡ take n (drop r xs)
take-drop_append zero r xs ys h = refl
take-drop_append (suc n) zero [] ys h = ground arith
take-drop_append (suc n) zero (x ∷ xs) ys h =
    ap (λ (l : Bytes). x ∷ l) (take-drop_append n zero xs ys (omega arith))
take-drop_append (suc n) (suc r) [] ys h = ground arith
take-drop_append (suc n) (suc r) (x ∷ xs) ys h = take-drop_append (suc n) r xs ys (omega arith)

take-write :
    (n r : ℕ) (xs v tail : Bytes)
    → r + n ≤ length xs
    → take (n + length v) (drop r (take (r + n) xs ++ (v ++ tail))) ≡ take n (drop r xs) ++ v
take-write zero zero xs v tail h = all v tail
  where
    all : (v tail : Bytes) → take (0 + length v) (v ++ tail) ≡ v
    all [] tail = refl
    all (c ∷ v) tail =
        let e : 0 + suc (length v) ≡ suc (0 + length v) = omega arith in
        rw e (ap (λ (l : Bytes). c ∷ l) (all v tail))
take-write (suc n) zero [] v tail h = ground arith
take-write (suc n) zero (x ∷ xs) v tail h =
    let e : suc n + length v ≡ suc (n + length v) = omega arith in
    let f : 0 + suc n ≡ suc (0 + n) = omega arith in
    rw (e, f) (ap (λ (l : Bytes). x ∷ l) (take-write n zero xs v tail (omega arith)))
take-write n (suc r) [] v tail h = ground arith
take-write n (suc r) (x ∷ xs) v tail h =
    let e : suc r + n ≡ suc (r + n) = omega arith in rw e (take-write n r xs v tail (omega arith))

-- `EnsureAvailable` keeps the buffer well-formed and its source, and then as many bytes are available as
-- it was asked for, in both its modes.
pub ensure_available_lem :
    (n : ℕ) (greedy : Bool) (b : Buffer)
    → IsValid b
    → b.virtual_view ≡ false
    → IsValid (ensure_available n greedy b).0
      × (source (ensure_available n greedy b).0 ≡ source b)
      × (n ≤ available (ensure_available n greedy b).0)
unfolding ensure_available make_room_for source
ensure_available_lem n greedy b v real =
    let kept =
      take-drop_append (b.write_index - b.read_index) b.read_index b.data_
        (replicate (make_room_for (n + b.write_index) greedy - length b.data_) 0)
        (omega (arith, v.ordered, v.inside real)) in
    let long =
      length-append b.data_
        (replicate (make_room_for (n + b.write_index) greedy - length b.data_) 0) in
    let many =
      length-replicate {A = ℕ} (make_room_for (n + b.write_index) greedy - length b.data_) 0 in
    (
      record {
        ordered = ground (arith, v.ordered);
        inside = λ r. ground (arith, v.inside real, long);
        viewed = λ r. ground (arith, real);
      },
      ground (arith, kept),
      ground (arith, long, many, v.inside real),
    )

source-real :
    (b : Buffer)
    → b.virtual_view ≡ false
    → source b ≡ take (b.write_index - b.read_index) (drop b.read_index b.data_)
unfolding source
source-real b real = elim (Bool-cases (b.write_index == b.read_index)) [
  | inl h ↦ let e : b.write_index - b.read_index ≡ 0 = ground arith in rw (source, h, e) refl
  | inr h ↦ rw (source, h, real) refl
]

-- Bytes written to the sink, where they fit it, and produced stand at the end of the source.
pub source-write_sink :
    (bytes_read : Bytes) (b : Buffer)
    → IsValid b
    → b.virtual_view ≡ false
    → length bytes_read ≤ available b
    → IsValid (produce (length bytes_read) (write_sink bytes_read b))
      × (source (produce (length bytes_read) (write_sink bytes_read b)) ≡ source b ++ bytes_read)
unfolding produce write_sink
source-write_sink v b valid real fits =
    let r = b.read_index in
    let n = b.write_index - r in
    let tail = drop (b.write_index + length v) b.data_ in
    let e : r + n ≡ b.write_index = omega (arith, valid.ordered) in
    let f : b.write_index + length v - r ≡ n + length v = omega (arith, valid.ordered) in
    let long = length-append (take b.write_index b.data_) (v ++ tail) in
    let more = length-append v tail in
    let kept = length-take b.write_index b.data_ in
    (
      record {
        ordered = omega (arith, valid.ordered);
        inside = λ h. omega (arith, long, more, kept, valid.inside real);
        viewed = λ h. ground (arith, real);
      },
      source-real (produce (length v) (write_sink v b)) real
          ∙ rw f (
              subst
                (λ m.
                  take (n + length v) (drop r (take m b.data_ ++ (v ++ tail)))
                  ≡ take n (drop r b.data_) ++ v)
                e (take-write n r b.data_ v tail (omega (arith, valid.ordered, valid.inside real))))
          ∙ ap (λ (l : Bytes). l ++ v) (sym (source-real b real)),
    )

drop-take : (n m : ℕ) (xs : Bytes) → drop n (take (n + m) xs) ≡ take m (drop n xs)
drop-take zero m xs = let e : 0 + m ≡ m = omega arith in rw e refl
drop-take (suc n) m [] = let e : suc n + m ≡ suc (n + m) = omega arith in rw e (sym (take-nil m))
  where
    take-nil : (k : ℕ) → take {A = ℕ} k [] ≡ []
    take-nil zero = refl
    take-nil (suc k) = refl
drop-take (suc n) m (x ∷ xs) =
    let e : suc n + m ≡ suc (n + m) = omega arith in rw e (drop-take n m xs)

drop-drop : (n r : ℕ) (xs : Bytes) → drop n (drop r xs) ≡ drop (r + n) xs
drop-drop n zero xs = let e : 0 + n ≡ n = omega arith in rw e refl
drop-drop n (suc r) [] = let e : suc r + n ≡ suc (r + n) = omega arith in rw e (drop-nil n)
  where
    drop-nil : (k : ℕ) → drop {A = ℕ} k [] ≡ []
    drop-nil zero = refl
    drop-nil (suc k) = refl
drop-drop n (suc r) (x ∷ xs) =
    let e : suc r + n ≡ suc (r + n) = omega arith in rw e (drop-drop n r xs)

-- Bytes that are consumed leave the start of the source, and what follows them stays, if no more are
-- consumed than were written.
pub source-consume :
    (n : ℕ) (b : Buffer)
    → IsValid b
    → b.virtual_view ≡ false
    → b.read_index + n ≤ b.write_index
    → IsValid (consume n b) × (source (consume n b) ≡ drop n (source b))
unfolding consume
source-consume n b valid real enough =
    let m = b.write_index - (b.read_index + n) in
    let e : b.write_index - b.read_index ≡ n + m = omega arith in
    (
      record { ordered = enough; inside = valid.inside; viewed = valid.viewed },
      source-real (consume n b) real
          ∙ ap (λ (l : Bytes). take m l) (sym (drop-drop n b.read_index b.data_))
          ∙ sym (drop-take n m (drop b.read_index b.data_))
          ∙ sym (ap (λ (k : ℕ). drop n (take k (drop b.read_index b.data_))) e)
          ∙ ap (λ (l : Bytes). drop n l) (sym (source-real b real)),
    )
