-- ===== src/Worker/Attrs.antt =====
-- burnin/worker/attrs.go: the attributes stamped on a message and read back, and the checksum of
-- burnin/payload/payload.go. A time is its nanoseconds since 1970; the zero time.Time is none.
use kubemq_gcp_pub_sub.Base.{
  ℕ, ◌<◌, ◌^◌, ◌≡◌, String, Bool, false, not, Option, none, some, List, [], ◌∷◌, if◌then◌else◌,
}
use kubemq_gcp_pub_sub.Base.Int.{ℤ, pos, ltb_ℤ}
use kubemq_gcp_pub_sub.Base.Assoc.{eqs, lookup}
use kubemq_gcp_pub_sub.Base.Codec.{Codec}

abbrev pub attr_worker_id : String
attr_worker_id = "workerId"

abbrev pub attr_sequence : String
attr_sequence = "sequence"

abbrev pub attr_content_hash : String
attr_content_hash = "contentHash"

abbrev pub attr_timestamp_ns : String
attr_timestamp_ns = "timestampNs"

abbrev pub Attributes : Type 0
Attributes = List (String × String)

-- The five results of extractMeta.
pub record Meta : Type 0 where
  pub producer_id : String
  pub seq : ℕ
  pub crc_hex : String
  pub sent_at : Option ℤ
  pub ok : Bool

-- A read of a Go map gives the zero value on a missing key.
abbrev pub or_empty : Option String → String
or_empty none = ""
or_empty (some v) = v

abbrev pub attr : String → Attributes → String
attr k attrs = or_empty (lookup k attrs)

abbrev pub or_zero : Option ℕ → ℕ
or_zero none = 0
or_zero (some n) = n

module _ (C : Codec) where
  open C use {format_uint, parse_uint, format_int, parse_int, crc32_hex}

  unfoldable pub stamp_attrs : String → ℕ → String → ℤ → Attributes
  stamp_attrs producer_id seq crc_hex now =
      (attr_worker_id, producer_id)
      ∷ (attr_sequence, format_uint seq)
      ∷ (attr_content_hash, crc_hex)
      ∷ (attr_timestamp_ns, format_int now)
      ∷ []

  unfoldable pub parse_sequence : String → ℕ
  parse_sequence v = if eqs v "" then 0 else or_zero (parse_uint v)

  unfoldable pub parse_timestamp : String → Option ℤ
  parse_timestamp v = if eqs v "" then none else parse_int v

  -- `none` stands for the nil map.
  unfoldable pub extract_meta : Option Attributes → Meta
  extract_meta none = record { producer_id = ""; seq = 0; crc_hex = ""; sent_at = none; ok = false }
  extract_meta (some attrs) = record {
    producer_id = attr attr_worker_id attrs;
    seq = parse_sequence (attr attr_sequence attrs);
    crc_hex = attr attr_content_hash attrs;
    sent_at = parse_timestamp (attr attr_timestamp_ns attrs);
    ok = not (eqs (attr attr_worker_id attrs) "");
  }

  -- The body is what randomHex makes of the size, the checksum that of the body.
  unfoldable pub build : (ℤ → String) → ℤ → String × String
  build random_hex target_size =
      let body = random_hex (if ltb_ℤ target_size (pos 1) then pos 1 else target_size) in
      (body, crc32_hex body)

  unfoldable pub verify_crc : String → String → Bool
  verify_crc body crc_hex = eqs (crc32_hex body) crc_hex

  -- What is stamped on a message is read back: the producer, any uint64 as the number, the checksum
  -- and any time from 1970 on that an int64 of nanoseconds holds; the message counts as
  -- instrumented if the producer has a name.
  pub extract_meta-stamp_attrs :
      (producer_id : String) (seq : ℕ) (crc_hex : String) (now : ℕ)
      → seq < 2 ^ 64
      → now < 2 ^ 63
      → extract_meta (some (stamp_attrs producer_id seq crc_hex (pos now))) ≡ record {
        producer_id = producer_id;
        seq = seq;
        crc_hex = crc_hex;
        sent_at = some (pos now);
        ok = not (eqs producer_id "");
      }
  unfolding extract_meta stamp_attrs parse_sequence parse_timestamp
  extract_meta-stamp_attrs producer_id seq crc_hex now hs ht = simp (
    C.format_uint-not_empty seq,
    C.format_int-not_empty (pos now),
    C.parse_uint-format_uint seq hs,
    C.parse_int-format_int now ht,
  )
