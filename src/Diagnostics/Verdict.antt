-- ===== src/Diagnostics/Verdict.antt =====
-- The throughput tracker and the verdict of app/monitoring/net_diagnostics.py. Fractions and their
-- rounding are a parameter; the clock is in milliseconds.
use palworld_server_service.Common.{
  ℕ, ◌-◌, ltb, leb, ◌==◌, ◌≡◌, refl, Bool, false, ◌&&◌, ◌||◌, not, if◌then◌else◌,
}
use palworld_server_service.Common.Text.{Text, codes}

pub record Fractions : Type 1 where
  pub Number : Type 0
  pub zero : Number
  pub whole : ℕ → Number
  pub below : Number → Number → Bool
  pub plus : Number → Number → Number
  -- round(bytes / (1024 * dt), 2) and round(kbps * 8 / 1000, 3)
  pub kbps : ℕ → ℕ → Number
  pub mbps : Number → Number

module _ (f : Fractions) where
  pub record Throughput : Type 0 where
    pub last_net_bytes_recv : ℕ
    pub last_net_bytes_sent : ℕ
    pub last_net_time : ℕ
    pub cached_rx_kbps : f.Number
    pub cached_tx_kbps : f.Number

  abbrev pub no_throughput : Throughput
  no_throughput = record {
    last_net_bytes_recv = 0;
    last_net_bytes_sent = 0;
    last_net_time = 0;
    cached_rx_kbps = f.zero;
    cached_tx_kbps = f.zero;
  }

  -- A counter that went back counts as no bytes.
  abbrev pub measured : ℕ → ℕ → ℕ → Throughput → Throughput
  measured now bytes_recv bytes_sent s =
      let dt = now - s.last_net_time in
      record {
        last_net_bytes_recv = bytes_recv;
        last_net_bytes_sent = bytes_sent;
        last_net_time = now;
        cached_rx_kbps = f.kbps (bytes_recv - s.last_net_bytes_recv) dt;
        cached_tx_kbps = f.kbps (bytes_sent - s.last_net_bytes_sent) dt;
      }

  abbrev pub first_measure : ℕ → ℕ → ℕ → Throughput → Throughput
  first_measure now bytes_recv bytes_sent s = record s {
    last_net_bytes_recv = bytes_recv;
    last_net_bytes_sent = bytes_sent;
    last_net_time = now;
  }

  unfoldable pub update_counters : ℕ → ℕ → ℕ → Throughput → Throughput
  update_counters now bytes_recv bytes_sent s =
      if leb 800 (now - s.last_net_time) && ltb 0 s.last_net_bytes_recv
      then measured now bytes_recv bytes_sent s
      else if s.last_net_bytes_recv == 0
      then first_measure now bytes_recv bytes_sent s
      else s

  pub data TrafficStatus : Type 0 where
    healthy : TrafficStatus
    elevated : TrafficStatus
    saturated : TrafficStatus

  pub record Rates : Type 0 where
    pub rx_rate_kbps : f.Number
    pub tx_rate_kbps : f.Number
    pub rx_rate_mbps : f.Number
    pub tx_rate_mbps : f.Number
    pub status : TrafficStatus

  abbrev pub traffic_status : f.Number → TrafficStatus
  traffic_status combined =
      if not (f.below combined (f.whole 50))
      then saturated
      else if not (f.below combined (f.whole 15))
      then elevated
      else healthy

  abbrev pub rates_of : Throughput → Rates
  rates_of s = record {
    rx_rate_kbps = s.cached_rx_kbps;
    tx_rate_kbps = s.cached_tx_kbps;
    rx_rate_mbps = f.mbps s.cached_rx_kbps;
    tx_rate_mbps = f.mbps s.cached_tx_kbps;
    status = traffic_status (f.plus (f.mbps s.cached_rx_kbps) (f.mbps s.cached_tx_kbps));
  }

  unfoldable pub calculate_rates : ℕ → ℕ → ℕ → Throughput → Rates × Throughput
  calculate_rates now bytes_recv bytes_sent s =
      let s' = update_counters now bytes_recv bytes_sent s in (rates_of s', s')

  -- Between two measurements less than 0.8 seconds apart the rates stay as they were, once there is a
  -- first one.
  pub calculate_rates-steady :
      (now bytes_recv bytes_sent : ℕ) (s : Throughput)
      → (s.last_net_bytes_recv == 0) ≡ false
      → leb 800 (now - s.last_net_time) ≡ false
      → calculate_rates now bytes_recv bytes_sent s ≡ (rates_of s, s)
  unfolding calculate_rates update_counters
  calculate_rates-steady now bytes_recv bytes_sent s started soon = simp (soon, started) refl

  pub record Measurements : Type 0 where
    pub server_fps : f.Number
    pub server_frame_time_ms : f.Number
    pub gw_jitter : f.Number
    pub gw_loss : f.Number
    pub net_jitter : f.Number
    pub net_loss : f.Number
    pub udp_drops : Bool

  pub data Verdict : Type 0 where
    server_tick_starvation : Verdict
    lan_jitter : Verdict
    nat_packet_loss : Verdict
    wan_jitter : Verdict
    clean : Verdict

  abbrev pub starves : Measurements → Bool
  starves m = f.below m.server_fps (f.whole 25) || f.below (f.whole 40) m.server_frame_time_ms

  abbrev pub lan_is_bad : Measurements → Bool
  lan_is_bad m = f.below (f.whole 20) m.gw_jitter || f.below f.zero m.gw_loss

  abbrev pub loses_packets : Measurements → Bool
  loses_packets m = f.below (f.whole 2) m.net_loss || m.udp_drops

  abbrev pub wan_is_bad : Measurements → Bool
  wan_is_bad m = f.below (f.whole 35) m.net_jitter

  -- The first cause that applies; the texts that go with it are left out.
  unfoldable pub evaluate_diagnostics_verdict : Measurements → Verdict
  evaluate_diagnostics_verdict m =
      if starves m
      then server_tick_starvation
      else if lan_is_bad m
      then lan_jitter
      else if loses_packets m
      then nat_packet_loss
      else if wan_is_bad m
      then wan_jitter
      else clean

  -- verdict_code of the tuple
  abbrev pub verdict_code : Verdict → Text
  verdict_code server_tick_starvation = codes "SERVER_TICK_STARVATION"
  verdict_code lan_jitter = codes "NETWORK_JITTER"
  verdict_code nat_packet_loss = codes "NAT_PACKET_LOSS"
  verdict_code wan_jitter = codes "NETWORK_JITTER"
  verdict_code clean = codes "CLEAN"
