-- ===== src/Voice/Assembler/Tick.antt =====
-- crates/voicetastic-core/src/voice/assembler/mod.rs: `tick`, which drives timeouts and requests.
use Prim.Native.String.{String}
use voicetastic_core.Prelude.{
  ℕ, ◌+◌, ◌-◌, ◌*◌, ◌^◌, min, Bool, true, false, not, ◌&&◌, ◌||◌, none, some, List, [], ◌∷◌, ◌++◌,
  map, ltb, leb, ◌==◌, if◌then◌else◌, length,
}
use voicetastic_core.Prelude.Assoc.{lookup}
use voicetastic_core.Proto.Mac.{Sha256}
use voicetastic_core.Voice.Nack.{build_nack}
use voicetastic_core.Voice.Types.{VoiceDestination, node, broadcast, VoiceMessage}
use voicetastic_core.Voice.Assembler.Config.{AssemblerConfig}
use voicetastic_core.Voice.Assembler.State.{
  AssemblyState, AssemblerInner, SenderKey, same_key, missing_data_indices,
}
use voicetastic_core.Voice.Assembler.Finalize.{finalize}
use voicetastic_core.Voice.Assembler.Accept.{prune_blacklist, retire, put}

pub record OutboundNack : Type 0 where
  pub from : String
  pub channel : ℕ
  pub frame : List ℕ
  pub give_up : Bool
  pub message_id : ℕ
  pub missing_count : ℕ
  pub round : ℕ

pub record TickOutput : Type 0 where
  pub finalized : List VoiceMessage
  pub nacks : List OutboundNack

abbrev pub no_output : TickOutput
no_output = record { finalized = []; nacks = [] }

abbrev pub join : TickOutput → TickOutput → TickOutput
join a b = record { finalized = a.finalized ++ b.finalized; nacks = a.nacks ++ b.nacks }

-- `saturating_add(1)` on a `u16`.
abbrev pub bump_round : ℕ → ℕ
bump_round n = min (n + 1) 65535

abbrev pub is_broadcast : VoiceDestination → Bool
is_broadcast broadcast = true
is_broadcast (node id) = false

unfoldable pub nack_enabled : AssemblerConfig → AssemblyState → Bool
nack_enabled cfg s = not (cfg.nack_backoff_base == 0) && not (is_broadcast s.to)

-- `checked_pow(..).unwrap_or(u32::MAX)`, and `saturating_mul` of a `Duration`.
unfoldable pub effective_window : AssemblerConfig → AssemblyState → ℕ
effective_window cfg s =
    let raised = cfg.nack_backoff_base ^ min s.nack_rounds 4 in
    let pow = if ltb raised (2 ^ 32) then raised else 2 ^ 32 - 1 in
    min (cfg.nack_window * pow) (2 ^ 64 * 1_000_000_000 - 1)

unfoldable pub outbound : Sha256 → SenderKey → AssemblyState → Bool → OutboundNack
outbound sha key s give_up = record {
  from = key.0;
  channel = s.channel;
  frame =
      build_nack sha s.header_template.message_id s.header_template.stream_seq
        s.header_template.codec s.header_template.codec_param s.header_template.total_data
        s.header_template.parity_count (missing_data_indices s) give_up;
  give_up = give_up;
  message_id = s.header_template.message_id;
  missing_count = length (missing_data_indices s);
  round = bump_round s.nack_rounds;
}

-- The message is over: time is up, or the requests stayed without an answer.
unfoldable pub is_over : AssemblerConfig → ℕ → AssemblyState → Bool
is_over cfg now s =
    leb cfg.message_timeout (now - s.started_at) || leb cfg.max_nack_rounds s.nack_rounds

unfoldable pub give_up_output : Sha256 → AssemblerConfig → SenderKey → AssemblyState → TickOutput
give_up_output sha cfg key s = record {
  finalized = if cfg.partial_play_on_timeout then finalize key.0 key s false ∷ [] else [];
  nacks = if nack_enabled cfg s then outbound sha key s true ∷ [] else [];
}

-- The sender is alive, has been quiet for the window of this round, and data is missing.
unfoldable pub wants_nack : AssemblerConfig → ℕ → AssemblyState → Bool
wants_nack cfg now s =
    nack_enabled cfg s
    && not (leb cfg.dead_sender_timeout (now - s.last_data_at))
    && leb (effective_window cfg s) (now - s.last_chunk_at)
    && ltb s.received_data s.header_template.total_data

-- `clock_max` is the last instant of the platform's clock: past it, `checked_add` fails.
unfoldable pub after_nack : ℕ → AssemblerConfig → ℕ → AssemblyState → AssemblyState
after_nack clock_max cfg now s =
    let next = s.last_chunk_at + effective_window cfg s in
    record s {
      nack_rounds = bump_round s.nack_rounds;
      last_chunk_at = if leb next clock_max then next else now;
    }

module _ (sha : Sha256) (clock_max : ℕ) (cfg : AssemblerConfig) (now : ℕ) where
  unfoldable pub tick_state :
      AssemblerInner → SenderKey → AssemblyState → AssemblerInner × TickOutput
  tick_state inner key s =
      if is_over cfg now s
      then (retire inner key now, give_up_output sha cfg key s)
      else if wants_nack cfg now s
      then (
        put inner key (after_nack clock_max cfg now s),
        record { finalized = []; nacks = outbound sha key s false ∷ [] },
      )
      else (inner, no_output)

  unfoldable pub tick_key : AssemblerInner → SenderKey → AssemblerInner × TickOutput
  tick_key inner key = elim (lookup same_key key inner.in_progress) [
    | none ↦ (inner, no_output)
    | some s ↦ tick_state inner key s
  ]

  -- The loop over the keys.
  unfoldable pub tick_keys : AssemblerInner → List SenderKey → AssemblerInner × TickOutput
  tick_keys inner [] = (inner, no_output)
  tick_keys inner (key ∷ keys) =
      let first = tick_key inner key in
      let rest = tick_keys first.0 keys in (rest.0, join first.1 rest.1)

  unfoldable pub tick : AssemblerInner → AssemblerInner × TickOutput
  tick inner =
      tick_keys
        (record inner { blacklist = prune_blacklist inner.blacklist now cfg.completion_memory })
        (map (λ e. e.0) inner.in_progress)
