-- ===== src/Proxy/DnsName.antt =====
-- Names in the messages of the DNS client of services/aimili-egress/proxy_server.py.
use aimili_gateway.Prelude.{
  ℕ, ◌≤◌, Text, ◌≡◌, ◌≢◌, refl, ap, ◌∙◌, subst, false, Option, none, some, List, [], ◌∷◌, ◌++◌,
  length, length-append, append_assoc, arith, ltb, Bool-cases, inl, inr,
}
use Prim.Native.Nat.{zero, suc}
use aimili_gateway.Prelude.Strings.{is_empty}
use aimili_gateway.Proxy.Dns.{Bytes, drop, put_label, encoded_label, qname, skip_name}

pub drop-append : (xs ys : Bytes) → drop (length xs) (xs ++ ys) ≡ ys
unfolding drop
drop-append [] ys = refl
drop-append (x ∷ xs) ys = drop-append xs ys

length-drop : (n : ℕ) (xs : Bytes) → length (drop n xs) ≤ length xs
unfolding drop
length-drop zero xs = omega arith
length-drop (suc n) [] = omega arith
length-drop (suc n) (x ∷ xs) = omega (arith, length-drop n xs)

-- With the length of the bytes as fuel the loop over a name ends, since more fuel changes nothing.
skip_name_enough :
    (f g : ℕ) (xs : Bytes) → length xs ≤ f → length xs ≤ g → skip_name f xs ≡ skip_name g xs
unfolding skip_name
skip_name_enough zero zero xs h k = refl
skip_name_enough zero (suc g) [] h k = refl
skip_name_enough zero (suc g) (x ∷ xs) h k = absurd (omega (arith, h))
skip_name_enough (suc f) zero [] h k = refl
skip_name_enough (suc f) zero (x ∷ xs) h k = absurd (omega (arith, k))
skip_name_enough (suc f) (suc g) [] h k = refl
skip_name_enough (suc f) (suc g) (x ∷ xs) h k = ground (
  arith,
  skip_name_enough f g (drop x xs) (omega (arith, h, length-drop x xs))
      (omega (arith, k, length-drop x xs)),
)

-- A name that `skip_name` goes past, with enough fuel.
abbrev pub IsName : Bytes → Type 0
IsName name =
    (fuel : ℕ) (after : Bytes) → length name ≤ fuel → skip_name fuel (name ++ after) ≡ after

end-IsName : IsName (0 ∷ [])
unfolding skip_name
end-IsName zero after h = absurd (omega (arith, h))
end-IsName (suc fuel) after h = refl

label-IsName :
    (label rest : Bytes)
    → length label ≢ 0
    → length label ≤ 63
    → IsName rest
    → IsName (length label ∷ (label ++ rest))
unfolding skip_name
label-IsName label rest e l h zero after f = absurd (omega (arith, f))
label-IsName label rest e l h (suc fuel) after f =
    let skipped : skip_name fuel (drop (length label) ((label ++ rest) ++ after)) ≡ after =
      rw (append_assoc label rest after, drop-append label (rest ++ after))
        (h fuel after (omega (arith, f, length-append label rest))) in
    ground (arith, skipped, e, l)

-- The forms of a name in a message: labels, and at the end the root or a reference.
pub data NameForm : Bytes → Type 0 where
  root : NameForm (0 ∷ [])
  reference : (p q : ℕ) → 192 ≤ p → NameForm (p ∷ q ∷ [])
  labelled :
      (label rest : Bytes)
      → length label ≢ 0
      → length label ≤ 63
      → NameForm rest
      → NameForm (length label ∷ (label ++ rest))

reference-IsName : (p q : ℕ) → 192 ≤ p → IsName (p ∷ q ∷ [])
unfolding skip_name drop
reference-IsName p q h zero after f = absurd (omega (arith, f))
reference-IsName p q h (suc fuel) after f = ground (arith, h)

pub form-IsName : (name : Bytes) → NameForm name → IsName name
form-IsName _ root = end-IsName
form-IsName _ (reference p q h) = reference-IsName p q h
form-IsName _ (labelled label rest e l f) = label-IsName label rest e l (form-IsName rest f)

pub form-not_empty : (name after : Bytes) → NameForm name → is_empty (name ++ after) ≡ false
unfolding is_empty
form-not_empty _ after root = refl
form-not_empty _ after (reference p q h) = refl
form-not_empty _ after (labelled label rest e l f) = refl

-- What the library's encoding of a part promises: a part that is not empty has bytes.
abbrev pub HasBytes : (Text → Option Bytes) → Type 0
HasBytes idna = (s : Text) → is_empty s ≡ false → idna s ≢ some []

module _ (idna : Text → Option Bytes) (has_bytes : HasBytes idna) where
  put-IsName :
      (label : Bytes) (rest : Option Bytes) (name : Bytes)
      → label ≢ []
      → length label ≤ 63
      → ((r : Bytes) → rest ≡ some r → IsName r)
      → put_label label rest ≡ some name
      → IsName name
  unfolding put_label
  put-IsName label none name e l h q = cc
  put-IsName [] (some r) name e l h q = absurd (e refl)
  put-IsName (x ∷ xs) (some r) name e l h q =
      let same : length {A = ℕ} (x ∷ xs) ∷ ((x ∷ xs) ++ r) ≡ name = cc in
      subst IsName same (label-IsName (x ∷ xs) r (ground arith) l (h r refl))

  encoded-IsName :
      (part : Text) (encoded rest : Option Bytes) (name : Bytes)
      → idna part ≡ encoded
      → is_empty part ≡ false
      → ((r : Bytes) → rest ≡ some r → IsName r)
      → encoded_label encoded rest ≡ some name
      → IsName name
  unfolding encoded_label
  encoded-IsName part none rest name q e h = λ w. cc
  encoded-IsName part (some label) rest name q e h =
      let go : encoded_label (some label) rest ≡ some name → IsName name =
        elim (Bool-cases (ltb 63 (length label))) [
          | inl t ↦ rw t (λ w. cc)
          | inr t ↦ rw t (
              put-IsName label rest name (λ z. has_bytes part e (q ∙ ap some z)) (ground (arith, t))
                h)
        ] in
      go

  pub qname-IsName : (parts : List Text) (name : Bytes) → qname idna parts ≡ some name → IsName name
  unfolding qname
  qname-IsName [] name = λ q. let same : 0 ∷ [] ≡ name = cc in subst IsName same end-IsName
  qname-IsName (part ∷ parts) name =
      let go : qname idna (part ∷ parts) ≡ some name → IsName name =
        elim (Bool-cases (is_empty part)) [
          | inl e ↦ rw e (qname-IsName parts name)
          | inr e ↦ rw e (
              encoded-IsName part (idna part) (qname idna parts) name refl e
                (λ r. qname-IsName parts r))
        ] in
      go
