-- ===== src/Adapter/Lossy.antt =====
-- libsponge/tcp_helpers/lossy_fd_adapter.hh: an adapter that drops segments at random. The random
-- generator (`std::mt19937`) is a parameter: its state, and what a call gives with the next state.
use computer_network.Base.{
  ℕ, ◌%◌, ◌^◌, Bool, true, false, Option, none, ltb, ◌==◌, if◌then◌else◌, Outcome, returned, threw,
}
use computer_network.TcpSegment.{TcpSegment}
use computer_network.Adapter.{IsAdapter}

module _ {AdapterT Input Generator : Type 0} (inner : IsAdapter AdapterT Input)
    (rand : Generator → ℕ × Generator) where
  pub record LossyFdAdapter : Type 0 where
    pub generator : Generator
    pub adapter : AdapterT

  -- The rate is tested before the generator is called.
  unfoldable pub should_drop : Bool → LossyFdAdapter → Bool × LossyFdAdapter
  should_drop uplink a =
      let cfg = inner.config a.adapter in
      let loss = if uplink then cfg.loss_rate_up else cfg.loss_rate_dn in
      if loss == 0
      then (false, a)
      else (let (number, generator) = rand a.generator in
          (ltb (number % 2 ^ 16) loss, record a { generator = generator }))

  -- After the adapter's own read.
  unfoldable pub drop_read :
      Option TcpSegment → Outcome AdapterT → Generator → Option TcpSegment × Outcome LossyFdAdapter
  unfolding should_drop
  drop_read seg (threw adapter) generator =
      (none, threw (record { generator = generator; adapter = adapter }))
  drop_read seg (returned adapter) generator =
      let (drop, a) = should_drop false (record { generator = generator; adapter = adapter }) in
      (if drop then none else seg, returned a)

  unfoldable pub read : Input → LossyFdAdapter → Option TcpSegment × Outcome LossyFdAdapter
  unfolding drop_read
  read input a =
      let (seg, adapter) = inner.read input a.adapter in drop_read seg adapter a.generator

  -- After the adapter's own write.
  unfoldable pub around : Generator → Outcome AdapterT → Outcome LossyFdAdapter
  around generator (returned adapter) =
      returned (record { generator = generator; adapter = adapter })
  around generator (threw adapter) = threw (record { generator = generator; adapter = adapter })

  unfoldable pub write : TcpSegment → LossyFdAdapter → TcpSegment × Outcome LossyFdAdapter
  unfolding should_drop around
  write seg a =
      let (drop, a') = should_drop true a in
      if drop
      then (seg, returned a')
      else (let (seg', adapter) = inner.write seg a'.adapter in (seg', around a'.generator adapter))

  -- The methods passed on to the adapter.
  unfoldable pub adapter : IsAdapter LossyFdAdapter Input
  unfolding read write around
  adapter = record {
    config = λ a. inner.config a.adapter;
    read = read;
    write = write;
    set_config = λ cfg a. record a { adapter = inner.set_config cfg a.adapter };
    set_listening = λ l a. record a { adapter = inner.set_listening l a.adapter };
    tick = λ ms a. around a.generator (inner.tick ms a.adapter);
  }
