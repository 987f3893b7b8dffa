-- ===== src/Naming/Namespace/Bounds.antt =====
-- A namespace leaves room for the prefix of a tool's name.
use Prim.Native.String.{count, ◌++◌}
use text.Mathlib.TextLemmas.{length-nil, length-cons, length-append}
use mcp_adapter.Prelude.{
  ℕ, zero, suc, ◌+◌, ◌-◌, ◌≤◌, String, ◌≡◌, refl, arith, inl, inr, leb, leb→le, Bool-cases,
}
use mcp_adapter.Naming.Prefix.{is_dash, underscored}
use mcp_adapter.Naming.Namespace.{
  take_text, max_server_namespace_length, namespace_body, long_namespace, hashed_namespace,
  format_server_namespace,
}

pub count-take_text : (n : ℕ) (s : String) → count (take_text n s) ≤ n
unfolding take_text
count-take_text zero s = omega (arith, length-nil)
count-take_text (suc n) String.[] = omega (arith, length-nil)
count-take_text (suc n) (String.◌∷◌ c s) =
    omega (arith, length-cons c (take_text n s), count-take_text n s)

-- A cut text, a separator and a hash are as long as the cut leaves room for.
pub count-cut :
    (n : ℕ) (s hash : String)
    → count hash + 1 ≤ n
    → count (take_text (n - count hash - 1) s ++ "_" ++ hash) ≤ n
count-cut n s hash h = omega (
  arith,
  length-append (take_text (n - count hash - 1) s) ("_" ++ hash),
  length-append "_" hash,
  count-take_text (n - count hash - 1) s,
  one_mark,
)
  where
    one_mark : count "_" ≡ 1
    one_mark = refl

module _ (sha256 : String → String) where
  hashed_namespace-bounds :
      (body namespace : String)
      → count (hashed_namespace sha256 body namespace) ≤ max_server_namespace_length
  unfolding hashed_namespace
  hashed_namespace-bounds body namespace =
      let digest = take_text 16 (sha256 namespace) in
      let room : count digest + 1 ≤ 49 = omega (arith, count-take_text 16 (sha256 namespace)) in
      omega (
        arith,
        length-append "_mcpns__h_" (take_text (49 - count digest - 1) body ++ "_" ++ digest),
        count-cut 49 body digest room,
        ten_marks,
      )
    where
      ten_marks : count "_mcpns__h_" ≡ 10
      ten_marks = refl

  -- A namespace has at most 59 characters, whatever the name of the server and the hash.
  pub format_server_namespace-bounds :
      (server_name : String)
      → count (format_server_namespace sha256 server_name) ≤ max_server_namespace_length
  unfolding format_server_namespace
  format_server_namespace-bounds server_name =
      let normalized = underscored is_dash server_name in
      let body = namespace_body normalized in
      let namespace = long_namespace normalized in
      elim (Bool-cases (leb (count namespace) max_server_namespace_length)) [
        | inl short ↦ rw short (leb→le (count namespace) max_server_namespace_length short)
        | inr long ↦ rw long (hashed_namespace-bounds body namespace)
      ]
