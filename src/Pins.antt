-- ===== src/Pins.antt =====
-- The pins of the board, as both libraries name them: `Pins` of firmware/kernel/src/lib.rs, `map_pins`
-- of firmware/pelle-bringup/src/lib.rs, whose texts are the same, and the six pins that
-- firmware/pelle-bringup/src/bin/qspi.rs hands to the flash driver. A pin has its port and number in its
-- type, so that the compiler finds a pin that is put in another's place.
use pellegrino.Base.{ℕ}
use pellegrino.Qspi.{Pin, QspiPins}

pub data Port : Type 0 where
  port0 port1 : Port

-- The crate `nrf52840_hal`: the peripherals P0 and P1, what `Parts::new` makes of one, a pin each, and
-- a pin without its type.
pub record Hal : Type 1 where
  pub Peripheral : Port → Type 0
  pub Gpio : Port → ℕ → Type 0
  pub parts : (port : Port) → Peripheral port → (number : ℕ) → Gpio port number
  pub degrade : (port : Port) (number : ℕ) → Gpio port number → Pin

pub record Pins (h : Hal) : Type 0 where
  pub a00 : h.Gpio port0 4
  pub a01 : h.Gpio port0 5
  pub a02 : h.Gpio port0 30
  pub a03 : h.Gpio port0 28
  pub a04 : h.Gpio port0 2
  pub a05 : h.Gpio port0 3
  pub aref : h.Gpio port0 31
  pub vdiv : h.Gpio port0 29
  pub d02 : h.Gpio port0 10
  pub d05 : h.Gpio port1 8
  pub d06 : h.Gpio port0 7
  pub d09 : h.Gpio port0 26
  pub d10 : h.Gpio port0 27
  pub d11 : h.Gpio port0 6
  pub d12 : h.Gpio port0 8
  pub d13 : h.Gpio port1 9
  pub scl : h.Gpio port0 11
  pub sda : h.Gpio port0 12
  pub rxd : h.Gpio port0 24
  pub txd : h.Gpio port0 25
  pub sclk : h.Gpio port0 14
  pub mosi : h.Gpio port0 13
  pub miso : h.Gpio port0 15
  pub qspi_d0 : h.Gpio port0 17
  pub qspi_d1 : h.Gpio port0 22
  pub qspi_d2 : h.Gpio port0 23
  pub qspi_d3 : h.Gpio port0 21
  pub qspi_sck : h.Gpio port0 19
  pub qspi_csn : h.Gpio port0 20
  pub led1 : h.Gpio port1 15
  pub led2 : h.Gpio port1 10
  pub neopix : h.Gpio port0 16
  pub reset : h.Gpio port0 18
  pub switch : h.Gpio port1 2
  pub swo : h.Gpio port1 0
  pub tp1 : h.Gpio port0 9

unfoldable pub map_pins : (h : Hal) → h.Peripheral port0 → h.Peripheral port1 → Pins h
map_pins h p0 p1 =
    let pin0 = h.parts port0 p0 in
    let pin1 = h.parts port1 p1 in
    record {
      a00 = pin0 4;
      a01 = pin0 5;
      a02 = pin0 30;
      a03 = pin0 28;
      a04 = pin0 2;
      a05 = pin0 3;
      aref = pin0 31;
      vdiv = pin0 29;
      d02 = pin0 10;
      d05 = pin1 8;
      d06 = pin0 7;
      d09 = pin0 26;
      d10 = pin0 27;
      d11 = pin0 6;
      d12 = pin0 8;
      d13 = pin1 9;
      scl = pin0 11;
      sda = pin0 12;
      rxd = pin0 24;
      txd = pin0 25;
      sclk = pin0 14;
      mosi = pin0 13;
      miso = pin0 15;
      qspi_d0 = pin0 17;
      qspi_d1 = pin0 22;
      qspi_d2 = pin0 23;
      qspi_d3 = pin0 21;
      qspi_sck = pin0 19;
      qspi_csn = pin0 20;
      led1 = pin1 15;
      led2 = pin1 10;
      neopix = pin0 16;
      reset = pin0 18;
      switch = pin1 2;
      swo = pin1 0;
      tp1 = pin0 9;
    }

-- `qpins` of the program.
unfoldable pub qspi_pins : (h : Hal) → Pins h → QspiPins
qspi_pins h pins = record {
  copi_io0 = h.degrade port0 17 pins.qspi_d0;
  cipo_io1 = h.degrade port0 22 pins.qspi_d1;
  io2 = h.degrade port0 23 pins.qspi_d2;
  io3 = h.degrade port0 21 pins.qspi_d3;
  csn = h.degrade port0 20 pins.qspi_csn;
  sck = h.degrade port0 19 pins.qspi_sck;
}
