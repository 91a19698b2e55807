-- ===== src/Meshtastic/Home.antt =====
-- native_serial.go and adapter.go: the status of the node, its radio configuration and channels, and the
-- frame as a whole. Of `HomeNodeConfigSummary` the fields that are never set on this path are left out
-- (those of the share link, `UnavailableReason` and `UpdatedAt`, empty in every summary here).
use loramapr_receiver.Base.{
  ℕ, ◌-◌, Bool, true, false, ◌&&◌, ◌||◌, not, Option, none, some, List, [], ◌∷◌, ◌++◌, Text, codes,
  is_empty, trim, text_eq, Result, ok, ◌>>=◌, ◌==◌, if◌then◌else◌,
}
use loramapr_receiver.Base.Decimal.{decimal}
use loramapr_receiver.Meshtastic.Protobuf.{ProtoField, decode_proto_fields}
use loramapr_receiver.Outbox.Types.{Time}
use loramapr_receiver.Meshtastic.Decode.{each}

pub record HomeNodeConfigSummary : Type 0 where
  pub available : Bool
  pub unavailable_reason : Text
  pub region : Text
  pub primary_channel : Text
  pub primary_channel_idx : ℕ
  pub psk_state : Text
  pub lora_preset : Text
  pub lora_bandwidth : Text
  pub lora_spreading : Text
  pub lora_coding_rate : Text
  pub share_url : Text
  pub share_url_redacted : Text
  pub share_url_available : Bool
  pub share_qr_text : Text
  pub source : Text
  pub updated_at : Time

-- The entry of a table, counted from `first`; the empty text beyond it.
abbrev pub name_at : List Text → ℕ → Text
name_at [] n = []
name_at (t ∷ ts) n = if n == 0 then t else name_at ts (n - 1)

unfoldable pub native_region_name : ℕ → Text
native_region_name value =
    name_at
      ([]
        ∷ codes "US"
        ∷ codes "EU_433"
        ∷ codes "EU_868"
        ∷ codes "CN"
        ∷ codes "JP"
        ∷ codes "ANZ"
        ∷ codes "RU"
        ∷ codes "KR"
        ∷ codes "TW"
        ∷ codes "IN"
        ∷ codes "NZ_865_868"
        ∷ codes "TH"
        ∷ codes "LORA_24"
        ∷ codes "UA_433"
        ∷ codes "UA_868"
        ∷ codes "MY_433"
        ∷ codes "MY_919"
        ∷ codes "SG_923"
        ∷ [])
      value

unfoldable pub native_modem_preset_name : ℕ → Text
native_modem_preset_name value =
    name_at
      (codes "LONG_FAST"
        ∷ codes "LONG_SLOW"
        ∷ codes "VERY_LONG_SLOW"
        ∷ codes "MEDIUM_SLOW"
        ∷ codes "MEDIUM_FAST"
        ∷ codes "SHORT_SLOW"
        ∷ codes "SHORT_FAST"
        ∷ codes "LONG_MODERATE"
        ∷ codes "SHORT_TURBO"
        ∷ [])
      value

abbrev pub no_summary : HomeNodeConfigSummary
no_summary = record {
  available = false;
  unavailable_reason = [];
  region = [];
  primary_channel = [];
  primary_channel_idx = 0;
  psk_state = [];
  lora_preset = [];
  lora_bandwidth = [];
  lora_spreading = [];
  lora_coding_rate = [];
  share_url = [];
  share_url_redacted = [];
  share_url_available = false;
  share_qr_text = [];
  source = [];
  updated_at = 0;
}

-- A turn of the loop of `decodeNativeLoRaConfig`.
abbrev pub lora_field : HomeNodeConfigSummary → ProtoField → HomeNodeConfigSummary
lora_field c f =
    if not (f.wire_type == 0)
    then c
    else if f.number == 7
    then record c { region = native_region_name f.varint }
    else if f.number == 2
    then record c { lora_preset = native_modem_preset_name f.varint }
    else if f.number == 3
    then record c { lora_bandwidth = decimal f.varint }
    else if f.number == 4
    then record c { lora_spreading = codes "SF" ++ decimal f.varint }
    else if f.number == 5
    then record c { lora_coding_rate = codes "4/" ++ decimal f.varint }
    else c

abbrev pub lora_summary : HomeNodeConfigSummary → Option HomeNodeConfigSummary
lora_summary c =
    if is_empty c.region
      && is_empty c.lora_preset
      && is_empty c.lora_bandwidth
      && is_empty c.lora_spreading
      && is_empty c.lora_coding_rate
    then none
    else some
        (record c { available = true; psk_state = codes "unknown"; source = codes "native_serial" })

unfoldable pub decode_native_lora_config : List ℕ → Result (Option HomeNodeConfigSummary)
unfolding native_region_name native_modem_preset_name
decode_native_lora_config payload =
    decode_proto_fields payload >>= λ fields. ok (lora_summary (each lora_field no_summary fields))

-- The loop of `decodeNativeConfigSummary` returns at the first `Config.lora`.
abbrev pub first_lora : List ProtoField → Result (Option HomeNodeConfigSummary)
first_lora [] = ok none
first_lora (f ∷ fs) =
    let rest = first_lora fs in
    if not (f.number == 6) || not (f.wire_type == 2)
    then rest
    else decode_native_lora_config f.bytes

unfoldable pub decode_native_config_summary : List ℕ → Result (Option HomeNodeConfigSummary)
decode_native_config_summary payload = decode_proto_fields payload >>= first_lora

abbrev pub psk_state_from_bytes : List ℕ → Text
psk_state_from_bytes [] = codes "not_set"
psk_state_from_bytes (b ∷ bs) = if not (b == 0) then codes "present" else psk_state_from_bytes bs

module _ (utf8 : List ℕ → Text) where
  abbrev pub settings_field : Text × Text → ProtoField → Text × Text
  settings_field (name, psk_state) f =
      if not (f.wire_type == 2)
      then (name, psk_state)
      else if f.number == 2
      then (name, psk_state_from_bytes f.bytes)
      else if f.number == 3
      then (trim (utf8 f.bytes), psk_state)
      else (name, psk_state)

  unfoldable pub decode_native_channel_settings : List ℕ → Result (Text × Text)
  decode_native_channel_settings payload = decode_proto_fields payload >>= λ fields.
      ok (each settings_field ([], codes "unknown") fields)

  abbrev pub channel_field : ℕ × List ℕ → ProtoField → ℕ × List ℕ
  channel_field (index, settings) f =
      if f.number == 1
      then (if f.wire_type == 0 then (f.varint, settings) else (index, settings))
      else if f.number == 2
      then (if f.wire_type == 2 then (index, f.bytes) else (index, settings))
      else (index, settings)

  abbrev pub channel_summary : ℕ → Text × Text → Option HomeNodeConfigSummary
  channel_summary index (name, psk_state) =
      if is_empty name && text_eq psk_state (codes "unknown") && (index == 0)
      then none
      else some (record no_summary {
        available = true;
        primary_channel = name;
        primary_channel_idx = index;
        psk_state = psk_state;
        source = codes "native_serial";
      })

  abbrev pub with_settings : ℕ × List ℕ → Result (Option HomeNodeConfigSummary)
  with_settings (index, settings) =
      if is_empty settings
      then ok none
      else (decode_native_channel_settings settings >>= λ s. ok (channel_summary index s))

  unfoldable pub decode_native_channel_summary : List ℕ → Result (Option HomeNodeConfigSummary)
  unfolding decode_native_channel_settings
  decode_native_channel_summary payload =
      decode_proto_fields payload >>= λ fields. with_settings (each channel_field (0, []) fields)
