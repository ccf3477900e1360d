-- ===== src/Files/Paths/Plain.antt =====
-- The paths of the store: a part without a slash, that is no `.` and no `..`, is one component.
use Prim.Native.String.{◌++◌}
use text.Mathlib.TextLemmas.{
  append-ne-nil_of_right_ne-nil, append_cancel_right, cons-append, nil-append,
}
use text.Mathlib.TextEquality.{eq_iff}
use go_build_cache.Prelude.{
  String, ◌≡◌, ◌≢◌, refl, sym, ◌∙◌, Bool, true, not, ◌&&◌, List, [], ◌∷◌, arith, str_eq,
}
use go_build_cache.Files.Paths.{
  FilePath, escape_key, split_slash, enter, enter_all, join, json_suffix, entry_path,
}
use go_build_cache.Files.Paths.Escape.{
  escape_key-injective, no_slash, no_slash-escape_key, split_slash-no_slash,
}

-- A name that is a component of a path as it stands.
unfoldable pub is_plain : String → Bool
is_plain s = not (str_eq s "") && (not (str_eq s ".") && not (str_eq s ".."))

escaped_to : (s t : String) → escape_key t ≡ t → escape_key s ≡ t → s ≡ t
escaped_to s t same e = escape_key-injective s t (e ∙ sym same)

pub is_plain-escape_key : (s : String) → is_plain s ≡ true → is_plain (escape_key s) ≡ true
unfolding is_plain escape_key
is_plain-escape_key s h = ground (
  arith,
  eq_iff s "",
  eq_iff s ".",
  eq_iff s "..",
  eq_iff (escape_key s) "",
  eq_iff (escape_key s) ".",
  eq_iff (escape_key s) "..",
  escaped_to s "" refl,
  escaped_to s "." refl,
  escaped_to s ".." refl,
)

json_nonempty : (s : String) → s ++ json_suffix ≢ ""
json_nonempty s = append-ne-nil_of_right_ne-nil s (λ h. absurd (cc h))

json_not_dot : (s : String) → s ++ json_suffix ≢ "."
json_not_dot String.[] h = absurd (cc h)
json_not_dot (String.◌∷◌ c s) h = json_nonempty s (cc (cons-append c s json_suffix, h))

json_not_dots : (s : String) → s ++ json_suffix ≢ ".."
json_not_dots String.[] h = absurd (cc h)
json_not_dots (String.◌∷◌ c s) h = json_not_dot s (cc (cons-append c s json_suffix, h))

is_plain_json : (s : String) → is_plain (s ++ json_suffix) ≡ true
unfolding is_plain
is_plain_json s = ground (
  arith,
  eq_iff (s ++ json_suffix) "",
  eq_iff (s ++ json_suffix) ".",
  eq_iff (s ++ json_suffix) "..",
  json_nonempty s,
  json_not_dot s,
  json_not_dots s,
)

no_slash-append : (s t : String) → no_slash s ≡ true → no_slash t ≡ true → no_slash (s ++ t) ≡ true
unfolding no_slash
no_slash-append String.[] t hs ht = rw (nil-append t) ht
no_slash-append (String.◌∷◌ c s) t hs ht =
    rw (cons-append c s t) (ground (arith, no_slash-append s t))

enter_plain :
    (p : FilePath) (x : String)
    → no_slash x ≡ true
    → is_plain x ≡ true
    → enter_all p (split_slash x) ≡ x ∷ p
unfolding enter_all enter is_plain
enter_plain p x h plain = rw (split_slash-no_slash x h) (ground (arith, plain))

join_cons :
    (p : FilePath) (x : String) (parts : List String)
    → no_slash x ≡ true
    → is_plain x ≡ true
    → join p (x ∷ parts) ≡ join (x ∷ p) parts
unfolding join
join_cons p x parts h plain = rw (enter_plain p x h plain) refl

pub entry_path_lem :
    (root : FilePath) (ns key : String)
    → is_plain ns ≡ true
    → entry_path root ns key ≡ (escape_key key ++ json_suffix) ∷ escape_key ns ∷ "entries" ∷ root
unfolding entry_path join
entry_path_lem root ns key plain =
    let file = escape_key key ++ json_suffix in
    join_cons root "entries" (escape_key ns ∷ file ∷ []) (unfold no_slash in refl)
      (unfold is_plain in refl)
    ∙ join_cons ("entries" ∷ root) (escape_key ns) (file ∷ []) (no_slash-escape_key ns)
        (is_plain-escape_key ns plain)
    ∙ join_cons (escape_key ns ∷ "entries" ∷ root) file []
        (no_slash-append (escape_key key) json_suffix (no_slash-escape_key key)
          (unfold no_slash in refl))
        (is_plain_json (escape_key key))

-- Entries with different identities stand in different files, unless a namespace is `""`, `"."` or
-- `".."`.
pub entry_path-injective :
    (root : FilePath) (a k b j : String)
    → is_plain a ≡ true
    → is_plain b ≡ true
    → entry_path root a k ≡ entry_path root b j
    → (a ≡ b) × (k ≡ j)
entry_path-injective root a k b j pa pb h =
    let same = sym (entry_path_lem root a k pa) ∙ h ∙ entry_path_lem root b j pb in
    (
      escape_key-injective a b (cc same),
      escape_key-injective k j
          (append_cancel_right (escape_key k) (escape_key j) json_suffix (cc same)),
    )
