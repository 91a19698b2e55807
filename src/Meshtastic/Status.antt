-- ===== src/Meshtastic/Status.antt =====
-- native_serial.go and adapter.go: what a frame from the device says.
use loramapr_receiver.Base.{
  ℕ, ◌^◌, Bool, true, false, ◌&&◌, ◌||◌, not, Option, none, some, List, [], ◌∷◌, ◌++◌, map, Text,
  codes, is_empty, trim, text_eq, Result, ok, ◌>>=◌, ltb, ◌==◌, length, take, if◌then◌else◌,
}
use loramapr_receiver.Outbox.Types.{Time}
use loramapr_receiver.Outbox.Store.{is_some}
use loramapr_receiver.Meshtastic.Protobuf.{ProtoField, decode_proto_fields, field_uint32}
use loramapr_receiver.Meshtastic.Decode.{Packet, decode_native_packet, format_node_id}
use loramapr_receiver.Meshtastic.Home.{
  HomeNodeConfigSummary, decode_native_config_summary, decode_native_channel_summary,
}

pub record NodeStatus : Type 0 where
  pub local_node_id : Text
  pub observed_node_ids : List Text
  pub home_config : Option HomeNodeConfigSummary

abbrev pub text_or : Text → Text → Text
text_or old new = if is_empty new then old else new

-- `mergeHomeNodeConfig` of two summaries
unfoldable pub merged_config : HomeNodeConfigSummary → HomeNodeConfigSummary → HomeNodeConfigSummary
merged_config c next = record {
  available = c.available || next.available;
  unavailable_reason = text_or c.unavailable_reason next.unavailable_reason;
  region = text_or c.region next.region;
  primary_channel = text_or c.primary_channel next.primary_channel;
  primary_channel_idx =
      if ltb 0 next.primary_channel_idx && ltb next.primary_channel_idx (2 ^ 63)
      then next.primary_channel_idx
      else c.primary_channel_idx;
  psk_state =
      if is_empty next.psk_state || text_eq next.psk_state (codes "unknown")
      then c.psk_state
      else next.psk_state;
  lora_preset = text_or c.lora_preset next.lora_preset;
  lora_bandwidth = text_or c.lora_bandwidth next.lora_bandwidth;
  lora_spreading = text_or c.lora_spreading next.lora_spreading;
  lora_coding_rate = text_or c.lora_coding_rate next.lora_coding_rate;
  share_url = text_or c.share_url next.share_url;
  share_url_redacted =
      if is_empty next.share_url then c.share_url_redacted else next.share_url_redacted;
  share_url_available = if is_empty next.share_url then c.share_url_available else true;
  share_qr_text = if is_empty next.share_url then c.share_qr_text else next.share_qr_text;
  source = text_or c.source next.source;
  updated_at = if next.updated_at == 0 then c.updated_at else next.updated_at;
}

abbrev pub merge_home_node_config :
    Option HomeNodeConfigSummary → Option HomeNodeConfigSummary → Option HomeNodeConfigSummary
merge_home_node_config current none = current
merge_home_node_config none (some update) = some update
merge_home_node_config (some current) (some update) = some (merged_config current update)

unfoldable pub among : Text → List Text → Bool
among t [] = false
among t (x ∷ xs) = text_eq t x || among t xs

module _ (to_lower : ℕ → ℕ) where
  -- A loop of `mergeNodeIDs`: the keys that were seen, and the identifiers that are kept.
  unfoldable pub keep_ids : List Text × List Text → List Text → List Text × List Text
  keep_ids (seen, out) [] = (seen, out)
  keep_ids (seen, out) (id ∷ ids) =
      let normalized = trim id in
      let key = map to_lower normalized in
      let same = keep_ids (seen, out) ids in
      let more = keep_ids (key ∷ seen, out ++ (normalized ∷ [])) ids in
      if is_empty normalized then same else if among key seen then same else more

  abbrev pub first_64 : List Text → List Text
  first_64 ids = if ltb 64 (length ids) then take 64 ids else ids

  unfoldable pub merge_node_ids : List Text → List Text → List Text
  unfolding keep_ids
  merge_node_ids existing [] = existing
  merge_node_ids existing (id ∷ ids) = first_64 (keep_ids (keep_ids ([], []) existing) (id ∷ ids)).1

  -- What `decodeNativeFrame` answers: an event, or that the frame is not handled.
  pub data NativeEvent : Type 0 where
    packet_event : Packet → Time → NativeEvent
    status_event : NodeStatus → Time → NativeEvent
    unhandled : NativeEvent

  -- `decodeNativeMyNodeNum`: the first number that is not 0.
  abbrev pub first_number : List ProtoField → Option ℕ
  first_number [] = none
  first_number (f ∷ fs) =
      let rest = first_number fs in
      let found : Option ℕ = elim (field_uint32 f) [
        | none ↦ rest
        | some value ↦ if ltb 0 value then some value else rest
      ] in
      if f.number == 1 then found else rest

  unfoldable pub decode_native_my_node_num : List ℕ → Result (Option ℕ)
  decode_native_my_node_num payload =
      decode_proto_fields payload >>= λ fields. ok (first_number fields)

  module _ (utf8 : List ℕ → Text) (snr_text : ℕ → Text) where
    abbrev pub first_user_id : List ProtoField → Text
    first_user_id [] = []
    first_user_id (f ∷ fs) =
        let rest = first_user_id fs in
        if (f.number == 1) && (f.wire_type == 2) then utf8 f.bytes else rest

    unfoldable pub decode_native_user_id : List ℕ → Result Text
    decode_native_user_id payload =
        decode_proto_fields payload >>= λ fields. ok (first_user_id fields)

    -- The loop of `decodeNativeObservedNodeID`: the number and the user's identifier.
    unfoldable pub observed : ℕ × Text → List ProtoField → Result (ℕ × Text)
    observed (num, user) [] = ok (num, user)
    observed (num, user) (f ∷ fs) =
        let same = observed (num, user) fs in
        let numbered : Result (ℕ × Text) = elim (field_uint32 f) [
          | none ↦ same
          | some value ↦ observed (value, user) fs
        ] in
        if f.number == 1
        then numbered
        else if (f.number == 2) && (f.wire_type == 2)
        then (decode_native_user_id f.bytes >>= λ id. observed (num, trim id) fs)
        else same

    unfoldable pub decode_native_observed_node_id : List ℕ → Result Text
    unfolding observed
    decode_native_observed_node_id payload = decode_proto_fields payload >>= λ fields.
        observed (0, []) fields >>= λ (x : ℕ × Text).
        ok (if is_empty x.1 then format_node_id x.0 else x.1)

    -- The cases of the switch that add to the status: the status, and whether there is one.
    abbrev pub status_field : ProtoField → NodeStatus × Bool → Result (NodeStatus × Bool)
    status_field f (s, has) =
        if f.number == 3
        then (decode_native_my_node_num f.bytes >>= λ num. ok (elim num [
          | none ↦ (s, has)
          | some n ↦ (record s { local_node_id = format_node_id n }, true)
        ]))
        else if f.number == 4
        then (decode_native_observed_node_id f.bytes >>= λ id. ok (
            if is_empty id then (s, has) else (
              record s { observed_node_ids = merge_node_ids s.observed_node_ids (id ∷ []) },
              true,
            )))
        else if f.number == 5
        then (decode_native_config_summary f.bytes >>= λ cfg. ok (
            if is_some cfg
            then (record s { home_config = merge_home_node_config s.home_config cfg }, true)
            else (s, has)))
        else if f.number == 10
        then (decode_native_channel_summary utf8 f.bytes >>= λ cfg. ok (
            if is_some cfg
            then (record s { home_config = merge_home_node_config s.home_config cfg }, true)
            else (s, has)))
        else ok (s, has)

    abbrev pub status_result : Time → NodeStatus × Bool → NativeEvent
    status_result now (s, has) = if has then status_event s now else unhandled

    -- The loop over the fields of the frame, which returns at the first packet.
    unfoldable pub frame_fields : Time → NodeStatus × Bool → List ProtoField → Result NativeEvent
    frame_fields now s [] = ok (status_result now s)
    frame_fields now s (f ∷ fs) =
        let skipped = frame_fields now s fs in
        if not (f.wire_type == 2)
        then skipped
        else if f.number == 2
        then (decode_native_packet snr_text f.bytes now >>= λ p.
            ok (packet_event p (if p.received_at == 0 then now else p.received_at)))
        else status_field f s >>= λ s'. frame_fields now s' fs

    unfoldable pub decode_native_frame : List ℕ → Time → Result NativeEvent
    unfolding frame_fields
    decode_native_frame payload now = decode_proto_fields payload >>= λ fields.
        frame_fields now
          (record { local_node_id = []; observed_node_ids = []; home_config = none }, false) fields
