-- ===== src/Admin/Addresses.antt =====
-- The address of a stored file leads back to its key (app/core/storage.py).
use Prim.Native.String.{[] as empty_text, ◌∷◌ as chars}
use Prim.Native.String.append
use Prim.Native.Char.{Char, code}
use ratinglift_backend_core.Common.{
  String, Bool, true, ◌≡◌, refl, sym, ap, ◌∙◌, inl, inr, Option, none, some, arith, ◌==◌, ==_iff,
  ◌<>◌, eq_iff, truthy, if◌then◌else◌, Bool-cases,
}
use ratinglift_backend_core.Admin.LocalFiles.{
  drop_slashes, after_prefix, rest_of, url_for_local, key_from_url_local, full_key, url_for_s3,
  or_full, without_prefix, key_from_url_s3,
}

append_nil : (b : String) → "" <> b ≡ b
append_nil b = append.nil b

append_cons : (c : Char) (a b : String) → (chars c a) <> b ≡ chars c (a <> b)
append_cons c a b = append.cons c a b

append_assoc : (a b c : String) → (a <> b) <> c ≡ a <> b <> c
append_assoc empty_text b c = ap (λ s. s <> c) (append_nil b) ∙ sym (append_nil (b <> c))
append_assoc (chars x a) b c =
    ap (λ s. s <> c) (append_cons x a b)
    ∙ append_cons x (a <> b) c
    ∙ ap (λ s. chars x s) (append_assoc a b c)
    ∙ sym (append_cons x a (b <> c))

after-append : (p s : String) → after_prefix p (p <> s) ≡ some s
unfolding after_prefix
after-append empty_text s = ap some (append_nil s)
after-append (chars c p) s =
    let same : (code c == code c) ≡ true = (==_iff (code c) (code c)).1 refl in
    ap (after_prefix (chars c p)) (append_cons c p s)
    ∙ ap (λ b. if b then after_prefix p (p <> s) else none) same
    ∙ after-append p s

slashed : (a : String) → after_prefix (a <> "/") "" ≡ none
unfolding after_prefix
slashed empty_text = ap (λ p. after_prefix p "") (append_nil "/")
slashed (chars c a) = ap (λ p. after_prefix p "") (append_cons c a "/")

-- An address that starts with a prefix and a slash is not empty.
rest_back : (prefix s : String) → rest_of (prefix <> "/") (some (prefix <> "/" <> s)) ≡ some s
rest_back prefix s =
    let url = prefix <> "/" <> s in
    let whole : after_prefix (prefix <> "/") url ≡ some s =
      ap (after_prefix (prefix <> "/")) (sym (append_assoc prefix "/" s))
      ∙ after-append (prefix <> "/") s in
    elim (Bool-cases (truthy (some url))) [
      | inl full ↦ ap (λ b. if b then after_prefix (prefix <> "/") url else none) full ∙ whole
      | inr void ↦
          let is_void : url ≡ "" = (eq_iff url "").0 (ground arith) in
          absurd
            (cc (sym (slashed prefix) ∙ ap (after_prefix (prefix <> "/")) (sym is_void) ∙ whole))
    ]

without_back :
    (key_prefix key : String)
    → without_prefix key_prefix (full_key key_prefix key) ≡ drop_slashes key
unfolding full_key
without_back key_prefix key =
    let whole : String = key_prefix <> "/" <> drop_slashes key in
    let full : Bool → String = λ b. if b then whole else drop_slashes key in
    let read : Bool → String =
      λ b. if b then or_full (after_prefix (key_prefix <> "/") (full b)) (full b) else full b in
    elim (Bool-cases (truthy (some key_prefix))) [
      | inl given ↦
          let back : after_prefix (key_prefix <> "/") whole ≡ some (drop_slashes key) =
            ap (after_prefix (key_prefix <> "/"))
              (sym (append_assoc key_prefix "/" (drop_slashes key)))
            ∙ after-append (key_prefix <> "/") (drop_slashes key) in
          ap read given ∙ ap (λ o. or_full o whole) back
      | inr bare ↦ ap read bare
    ]

-- The key that either backend reads off the address that it gave to a key is that key, without the slashes
-- it may start with: for the local files below any prefix, and for S3 below any base, with a prefix of the
-- keys or without one.
pub key_from_url-url_for :
    (url_prefix url_base key_prefix key : String)
    → (key_from_url_local url_prefix (some (url_for_local url_prefix key))
        ≡ some (drop_slashes key))
      × (key_from_url_s3 url_base key_prefix (some (url_for_s3 url_base key_prefix key))
          ≡ some (drop_slashes key))
unfolding key_from_url_local url_for_local key_from_url_s3 url_for_s3
key_from_url-url_for url_prefix url_base key_prefix key =
    let read : Option String → Option String =
      λ o. elim o [ none ↦ none | some full ↦ some (without_prefix key_prefix full) ] in
    (
      rest_back url_prefix (drop_slashes key),
      ap read (rest_back url_base (full_key key_prefix key))
          ∙ ap some (without_back key_prefix key),
    )
