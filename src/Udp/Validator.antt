-- ===== src/Udp/Validator.antt =====
-- crates/udp/src/workers/socket/validator.rs: connection ids. An id is kept as the bytes of its
-- inner integer in the order of the machine, as both directions convert it.
pub mod Ids
use tracker_enhanced.Prelude.{
  ℕ, suc, ◌+◌, ◌%◌, ◌^◌, ◌≤◌, ◌<◌, ◌≡◌, refl, Bool, true, false, ◌&&◌, List, [], ◌∷◌, ◌++◌, arith,
  Eq, ◌==◌, list_eq, nat_eq, ltb, leb, length, take, drop, if◌then◌else◌,
}
use tracker_enhanced.Common.Ip.{SocketAddr, IpAddr, octets}
use tracker_enhanced.UdpProtocol.Bytes.{Bytes, to_be_bytes, from_be_bytes}

-- The keyed BLAKE3 hasher, by the first four bytes of its extendable output: after `update` of some
-- bytes, `finalize_xof().fill` writes bytes that depend on the key and these bytes alone.
pub record Hasher : Type 0 where
  pub fill_four : Bytes → Bytes
  pub length-fill_four : (input : Bytes) → length (fill_four input) ≡ 4

-- The byte order of the machine: `to_ne_bytes` and `from_ne_bytes` of a `u32`.
pub record Endian : Type 0 where
  pub to_ne_bytes : ℕ → Bytes
  pub from_ne_bytes : Bytes → ℕ
  pub length-to_ne_bytes : (v : ℕ) → length (to_ne_bytes v) ≡ 4
  pub from-to_ne_bytes : (v : ℕ) → v < 2 ^ 32 → from_ne_bytes (to_ne_bytes v) ≡ v

-- The key is in `keyed_hasher`; the clock is read by `update_elapsed`.
pub record ConnectionValidator : Type 0 where
  pub max_connection_age : ℕ
  pub keyed_hasher : Hasher
  pub seconds_since_start : ℕ

module _ (en : Endian) where
  -- `hash`
  unfoldable pub hash : ConnectionValidator → Bytes → IpAddr → Bytes
  hash v elapsed ip_addr = v.keyed_hasher.fill_four (elapsed ++ octets ip_addr)

  -- `create_connection_id`
  unfoldable pub create_connection_id : ConnectionValidator → SocketAddr → Bytes
  create_connection_id v source_addr =
      let elapsed = en.to_ne_bytes v.seconds_since_start in elapsed ++ hash v elapsed source_addr.ip

  -- `connection_id_valid`
  unfoldable pub connection_id_valid : ConnectionValidator → SocketAddr → Bytes → Bool
  connection_id_valid v source_addr connection_id =
      let elapsed = take 4 connection_id in
      let h = drop 4 connection_id in
      if h == hash v elapsed source_addr.ip
      then (let client_elapsed = en.from_ne_bytes elapsed in
          let client_expiration_time = client_elapsed + v.max_connection_age in
          ltb v.seconds_since_start client_expiration_time
          && leb client_elapsed (v.seconds_since_start + 60))
      else false

  -- `update_elapsed`, given the whole seconds since the start.
  unfoldable pub update_elapsed : ℕ → ConnectionValidator → ConnectionValidator
  update_elapsed elapsed_secs v = record v { seconds_since_start = elapsed_secs % 2 ^ 32 }
