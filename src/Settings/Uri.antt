-- ===== src/Settings/Uri.antt =====
-- The port of the subscription's URI.
use hy_panel.Base.{
  String, ◌<>◌, ◌≡◌, refl, sym, ap, ◌∙◌, arith, false, str_eq, eq_iff, if◌then◌else◌, Bool-cases,
  inl, inr, first_code, colon-first_code,
}
use hy_panel.Base.Assoc.{Assoc}
use hy_panel.Settings.{value_of, protocol_of, host_of, shown_port, final_uri}

-- A text that begins with a colon is no other text that begins otherwise.
colon-str_eq : (port text : String) → (first_code text ≡ 58 → ⊥) → str_eq (":" <> port) text ≡ false
colon-str_eq port text h = elim (Bool-cases (str_eq (":" <> port) text)) [
  | inl e ↦
      absurd (h (sym (ap first_code ((eq_iff (":" <> port) text).0 e)) ∙ colon-first_code port))
  | inr e ↦ e
]

shown_port-colon : (protocol port : String) → shown_port protocol (":" <> port) ≡ ":" <> port
unfolding shown_port first_code
shown_port-colon protocol port =
    let a = colon-str_eq port "80" (λ e. omega (arith, e)) in
    let b = colon-str_eq port "443" (λ e. omega (arith, e)) in rw (a, b) refl

-- Where no subURI is set, the subscription URI is made of the protocol, the host, a colon with the
-- port, and the path: the port is written out whatever the protocol is.
pub final_uri_lem :
    (all : Assoc String) (host : String)
    → final_uri all host ≡ (
        if str_eq (value_of "subURI" all) ""
        then protocol_of all
          <> "://"
          <> host_of all host
          <> (":" <> value_of "subPort" all)
          <> value_of "subPath" all
        else value_of "subURI" all)
unfolding final_uri
final_uri_lem all host = rw (shown_port-colon (protocol_of all) (value_of "subPort" all)) refl
