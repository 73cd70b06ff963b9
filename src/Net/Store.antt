-- ===== src/Net/Store.antt =====
-- The unaligned store of include/utils/unaligned.h, and what a load reads behind it.
use vnic.Prelude.{
  ℕ, ◌+◌, ◌≤◌, ◌≡◌, refl, sym, ap, ◌∙◌, Option, none, some, List, [], ◌∷◌, ◌++◌, arith, length,
  length-append, take, drop, leb, if◌then◌else◌, ◌>>=◌, le→leb, drop-drop, length-take,
}
use vnic.Net.Bytes.{Pod, load_unaligned, load_unaligned_inside}

-- The bytes after a `memcpy` to an offset; `none` where it would write outside the object.
unfoldable pub write_bytes : List ℕ → ℕ → List ℕ → Option (List ℕ)
write_bytes bytes offset raw =
    if leb (offset + length raw) (length bytes)
    then some (take offset bytes ++ (raw ++ drop (offset + length raw) bytes))
    else none

-- `StoreUnaligned(data.data() + offset, value)` of a value by the bytes that it consists of.
unfoldable pub store_unaligned : List ℕ → ℕ → List ℕ → Option (List ℕ)
store_unaligned bytes offset value = write_bytes bytes offset value

pub take_append : (xs ys : List ℕ) → take (length xs) (xs ++ ys) ≡ xs
take_append [] ys = refl
take_append (x ∷ xs) ys = ap (◌∷◌ x) (take_append xs ys)

pub drop_append : (xs ys : List ℕ) → drop (length xs) (xs ++ ys) ≡ ys
drop_append [] ys = refl
drop_append (x ∷ xs) ys = drop_append xs ys

-- A store that hits exactly the middle part.
pub write_bytes_middle :
    (xs ys zs raw : List ℕ)
    → length ys ≡ length raw
    → write_bytes (xs ++ (ys ++ zs)) (length xs) raw ≡ some (xs ++ (raw ++ zs))
unfolding write_bytes
write_bytes_middle xs ys zs raw e =
    rw
      (
        le→leb (length xs + length raw) (length (xs ++ (ys ++ zs)))
            (omega (arith, e, length-append xs (ys ++ zs), length-append ys zs)),
        take_append xs (ys ++ zs),
        ← drop-drop (length xs) (length raw) (xs ++ (ys ++ zs)),
        drop_append xs (ys ++ zs),
        ← e,
        drop_append ys zs,
      )
      refl

-- A value is loaded from where it has been stored.
pub load_unaligned-store_unaligned {ℓ} :
    {A : Type ℓ} (pod : Pod A) (bytes value : List ℕ) (offset : ℕ)
    → length value ≡ pod.sizeof
    → offset + pod.sizeof ≤ length bytes
    → (store_unaligned bytes offset value >>= λ stored. load_unaligned pod stored offset)
      ≡ some (pod.decode value)
unfolding store_unaligned write_bytes
load_unaligned-store_unaligned pod bytes value offset e inside =
    rw (le→leb (offset + length value) (length bytes) (omega (arith, e, inside))) (
      load_unaligned_inside pod stored offset (
        omega (
          arith,
          e,
          inside,
          before_is,
          length-append before (value ++ after),
          length-append value after,
        ))
      ∙ ap (λ n. some (pod.decode (take n (drop offset stored)))) (sym e)
      ∙ ap (λ k. some (pod.decode (take (length value) (drop k stored)))) (sym before_is)
      ∙ ap (λ b. some (pod.decode (take (length value) b))) (drop_append before (value ++ after))
      ∙ ap (λ b. some (pod.decode b)) (take_append value after))
  where
    before : List ℕ
    before = take offset bytes

    after : List ℕ
    after = drop (offset + length value) bytes

    stored : List ℕ
    stored = before ++ (value ++ after)

    before_is : length before ≡ offset
    before_is = omega (arith, length-take offset bytes, inside)
