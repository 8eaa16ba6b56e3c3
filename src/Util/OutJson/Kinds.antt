-- ===== src/Util/OutJson/Kinds.antt =====
-- What FillOutJson writes for each type of inbound.
use hy_panel.Base.{String, true, Option, none, some, List, [], ◌∷◌, if◌then◌else◌, str_eq, ◌==◌}
use hy_panel.Base.Assoc.{Assoc, insert, remove}
use hy_panel.Base.Value.{Value, text, flag, number, text_at, flag_at, number_at, or_zero}
use hy_panel.Util.OutJson.Writes.{
  IsWrite, IsWrite-id, IsWrite-compose, IsWrite-insert, IsWrite-remove, IsWrite-constant,
  IsWrite-if, copy_field-IsWrite, remove_each-IsWrite, put_if_any-IsWrite,
}
use hy_panel.Util.OutJson.{
  copy_field, remove_each, put_if_any, naive_out, shadowsocks_out, shadow_tls_out, rates_out,
  hysteria_out, hysteria2_out, tuic_out, transport_out, vmess_out, out_of_type,
}

naive_out-IsWrite : (inbound : Assoc Value) → IsWrite (naive_out inbound)
unfolding naive_out
naive_out-IsWrite inbound = go (text_at "quic_congestion_control" inbound)
  where
    go :
        (o : Option String)
        → IsWrite (λ m. elim o [
          | none ↦ m
          | some control ↦
              insert "quic_congestion_control"
                (text (
                  if str_eq control "bbr_standard"
                  then "bbr"
                  else if str_eq control "bbr2_variant"
                  then "bbr2"
                  else control))
                (insert "quic" (flag true) m)
        ])
    go none = IsWrite-id
    go (some control) =
        IsWrite-compose (insert "quic_congestion_control" _) (insert "quic" (flag true))
          (IsWrite-insert "quic_congestion_control" _) (IsWrite-insert "quic" (flag true))

shadowsocks_out-IsWrite : (inbound : Assoc Value) → IsWrite (shadowsocks_out inbound)
unfolding shadowsocks_out
shadowsocks_out-IsWrite inbound = go (text_at "method" inbound)
  where
    go :
        (o : Option String)
        → IsWrite (λ m. elim o [ none ↦ m | some method ↦ insert "method" (text method) m ])
    go none = IsWrite-id
    go (some method) = IsWrite-insert "method" (text method)

shadow_tls_out-IsWrite : (inbound : Assoc Value) → IsWrite (shadow_tls_out inbound)
unfolding shadow_tls_out
shadow_tls_out-IsWrite inbound =
    IsWrite-compose (insert "tls" _)
      (λ m.
        if or_zero 0 (number_at "version" inbound) == 3 then insert "version" (number 3) m else [])
      (IsWrite-insert "tls" _)
      (IsWrite-if (or_zero 0 (number_at "version" inbound) == 3) (insert "version" (number 3))
        (λ m. []) (IsWrite-insert "version" (number 3)) (IsWrite-constant []))

rates_out-IsWrite : (inbound : Assoc Value) → IsWrite (rates_out inbound)
unfolding rates_out
rates_out-IsWrite inbound =
    IsWrite-compose (copy_field "up_mbps" inbound "down_mbps")
      (copy_field "down_mbps" inbound "up_mbps") (copy_field-IsWrite "up_mbps" inbound "down_mbps")
      (copy_field-IsWrite "down_mbps" inbound "up_mbps")

-- A copy behind other writes
copied :
    (k : String) (inbound : Assoc Value) (f : Assoc Value → Assoc Value)
    → IsWrite f
    → IsWrite (λ m. copy_field k inbound k (f m))
copied k inbound f h = IsWrite-compose (copy_field k inbound k) f (copy_field-IsWrite k inbound k) h

rated :
    (inbound : Assoc Value) (ks : List String) → IsWrite (λ m. rates_out inbound (remove_each ks m))
rated inbound ks =
    IsWrite-compose (rates_out inbound) (remove_each ks) (rates_out-IsWrite inbound)
      (remove_each-IsWrite ks)

hysteria2_out-IsWrite : (inbound : Assoc Value) → IsWrite (hysteria2_out inbound)
unfolding hysteria2_out
hysteria2_out-IsWrite inbound = copied "obfs" inbound _ (rated inbound _)

hysteria_out-IsWrite : (inbound : Assoc Value) → IsWrite (hysteria_out inbound)
unfolding hysteria_out
hysteria_out-IsWrite inbound =
    copied "disable_mtu_discovery" inbound _
      (copied "recv_window_conn" inbound _ (copied "obfs" inbound _ (rated inbound _)))

tuic_out-IsWrite : (inbound : Assoc Value) → IsWrite (tuic_out inbound)
unfolding tuic_out
tuic_out-IsWrite inbound = copied "heartbeat" inbound _ (
    IsWrite-compose (put_if_any "zero_rtt_handshake" (flag_at "zero_rtt_handshake" inbound)) _
      (put_if_any-IsWrite "zero_rtt_handshake" (flag_at "zero_rtt_handshake" inbound))
      (IsWrite-compose (insert "congestion_control" _)
        (remove_each ("zero_rtt_handshake" ∷ "heartbeat" ∷ []))
        (IsWrite-insert "congestion_control" _)
        (remove_each-IsWrite ("zero_rtt_handshake" ∷ "heartbeat" ∷ []))))

transport_out-IsWrite : (inbound : Assoc Value) → IsWrite (transport_out inbound)
unfolding transport_out
transport_out-IsWrite inbound =
    copied "transport" inbound (remove "transport") (IsWrite-remove "transport")

vmess_out-IsWrite : (inbound : Assoc Value) → IsWrite (vmess_out inbound)
unfolding vmess_out
vmess_out-IsWrite inbound =
    IsWrite-compose (transport_out inbound) (insert "alter_id" (number 0))
      (transport_out-IsWrite inbound) (IsWrite-insert "alter_id" (number 0))

pub out_of_type-IsWrite :
    (kind : String) (inbound : Assoc Value) → IsWrite (out_of_type kind inbound)
unfolding out_of_type
out_of_type-IsWrite kind inbound = IsWrite-if _ _ _ IsWrite-id (
    IsWrite-if _ _ _ (naive_out-IsWrite inbound) (
      IsWrite-if _ _ _ (shadowsocks_out-IsWrite inbound) (
        IsWrite-if _ _ _ (shadow_tls_out-IsWrite inbound) (
          IsWrite-if _ _ _ (hysteria_out-IsWrite inbound) (
            IsWrite-if _ _ _ (hysteria2_out-IsWrite inbound) (
              IsWrite-if _ _ _ (tuic_out-IsWrite inbound) (
                IsWrite-if _ _ _ (transport_out-IsWrite inbound)
                  (IsWrite-if _ _ _ (vmess_out-IsWrite inbound) (IsWrite-constant [])))))))))
