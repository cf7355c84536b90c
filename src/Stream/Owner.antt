-- ===== src/Stream/Owner.antt =====
-- FtdiContext of src/FtdiContext.cpp: set_ftdi_params, init and clear. A string is its bytes, and the
-- messages are without the values that are printed into them.
use libsgftdi.Base.{
  ℕ, ℤ, ◌+◌, ltb, word, is_negative, is_nonzero, List, [], ◌∷◌, Bool, true, false, not, Option,
  none, some, if◌then◌else◌, String,
}
use libsgftdi.Context.{Context, DataBits, StopBits, Parity}
use libsgftdi.Usb.{Host, Function}
use libsgftdi.Control.{usb_reset, set_line_property, setflowctrl}
use libsgftdi.Baud.{set_baudrate}
use libsgftdi.Device.{set_interface}
use libsgftdi.Device.Extended.{new_ex, free_ex}
use libsgftdi.Open.Enumeration.{Enumeration, Descriptor}
use libsgftdi.Open.Find.{find_all, list_free}
use libsgftdi.Open.Dev.{open_dev}
use libsgftdi.Stream.State.{StreamHost, Outcome, done, thrown, at_place}

pub record UsbDev : Type 0 where
  pub vendor : ℤ
  pub product : ℤ
  pub device : ℕ

-- `flow` is the value of FlowControl.
pub record ContextConfig : Type 0 where
  pub speed : ℤ
  pub usb_devices : List UsbDev
  pub usb_device : UsbDev
  pub ftdi_port : ℕ
  pub databits : DataBits
  pub stopbits : StopBits
  pub parity : Parity
  pub flow : ℕ

-- FtdiContext with the outside world.
pub record Owner (W : Type 0) : Type 0 where
  pub ctx : Option Context
  pub usb_ctx : Option ℕ
  pub create_libusb_context : Bool
  pub libusb_context_created : Bool
  pub manufacturer : List ℕ
  pub description : List ℕ
  pub serial : List ℕ
  pub config : ContextConfig
  pub world : W

abbrev pub Own : Type 0 → Type 0 → Type 0
Own W A = Owner W → Outcome A × Owner W

module _ {W : Type 0} where
  infixl 5 ◌>>=◌ ◌>>◌
  abbrev ◌>>=◌ : {A B : Type 0} → Own W A → (A → Own W B) → Own W B
  ◌>>=◌ m f s = let (e, s') = m s in elim e [ done a ↦ f a s' | thrown str ↦ (thrown str, s') ]

  abbrev ◌>>◌ : {A B : Type 0} → Own W A → Own W B → Own W B
  m >> k = m >>= λ _. k

  abbrev pure : {A : Type 0} → A → Own W A
  pure a s = (done a, s)

  abbrev throw_when : Bool → String → Own W (Unit {0})
  throw_when true str s = (thrown str, s)
  throw_when false str s = (done tt, s)

  abbrev modify : (Owner W → Owner W) → Own W (Unit {0})
  modify f s = (done tt, f s)

  -- A function of the library on the context.
  abbrev on_ctx : {A : Type 0} → Function W A → Own W A
  on_ctx f s =
      let (a, s') = f (record { ftdi = s.ctx; world = s.world }) in
      (done a, record s { ctx = s'.ftdi; world = s'.world })

  abbrev on_world : {A : Type 0} → (W → A × W) → Own W A
  on_world f s = let (a, w) = f s.world in (done a, record s { world = w })

module _ {W : Type 0} (host : Host W) where
  abbrev set_ftdi_params : Own W (Unit {0})
  set_ftdi_params s =
      (do
        r ← on_ctx (usb_reset host)
        throw_when (is_nonzero r) "Unable to reset device"
        r ← on_ctx (set_baudrate host s.config.speed)
        throw_when (is_nonzero r) "Unable to set baudrate"
        r ← on_ctx (set_line_property host s.config.databits s.config.stopbits s.config.parity)
        throw_when (is_nonzero r) "Unable to set parameters"
        r ← on_ctx (setflowctrl host s.config.flow)
        throw_when (is_nonzero r) "Unable to set flow control")
        s

  abbrev free_ctx : Owner W → Owner W
  free_ctx s = elim s.ctx [
    | none ↦ s
    | some c ↦
        let freed = free_ex host (record { ftdi = some c; world = s.world }) in
        record s { ctx = none; world = freed.world }
  ]

  abbrev exit_created : Owner W → Owner W
  exit_created s = elim s.usb_ctx [
    | none ↦ s
    | some usb ↦ record s { usb_ctx = none; world = host.exit usb s.world }
  ]

  unfoldable pub context_clear : Owner W → Owner W
  context_clear s =
      let freed = free_ctx s in if freed.libusb_context_created then exit_created freed else freed

-- The sizes of struct ftdi_context, struct ftdi_eeprom and struct ftdi_device_list.
module _ {W : Type 0} (host : Host W) (enum : Enumeration W) (loop : StreamHost W)
    (ctx_size size sizeof : ℕ) where
  -- The context of libusb, if none is passed.
  abbrev make_usb : Option ℕ → Own W (Unit {0})
  make_usb (some usb) s = (done tt, s)
  make_usb none s =
      (do
        throw_when (not s.create_libusb_context) "USB context is not provided"
        (r, usb) ← on_world λ w. (let (r, usb, w') = host.init w in ((r, usb), w'))
        throw_when (is_nonzero r) "Unable to init USB"
        modify λ s. record s {
          usb_ctx = some usb;
          libusb_context_created = true;
          world = loop.clear_notifiers s.world;
        })
        s

  -- The context is made with the parameter, whether or not one has been created.
  abbrev make_ctx : Option ℕ → Own W (Unit {0})
  make_ctx usb_ctx s =
      let (ctx, w) = new_ex host ctx_size size usb_ctx s.world in
      elim ctx [
        | none ↦ (thrown "Unable to allocate FTDI context", record s { world = w })
        | some c ↦ (done tt, record s { ctx = some c; world = w })
      ]

  abbrev choose_port : ℕ → Own W (Unit {0})
  choose_port port =
      if ltb port 4
      then (do
        r ← on_ctx (set_interface (port + 1))
        throw_when (is_nonzero r) "Unable to set interface port")
      else throw_when true "Bad port number"

  abbrev free_list : List ℕ → Own W (Unit {0})
  free_list l = on_world λ w. (tt, list_free host enum l w)

  -- In a try: the list is freed when there is an exception.
  abbrev fail_free : Bool → List ℕ → String → Own W (Unit {0})
  fail_free true l str = free_list l >> throw_when true str
  fail_free false l str = pure tt

  -- get_string_descriptor_ascii, which leaves an empty string if it fails
  abbrev string_of : ℕ → Own W (List ℕ)
  string_of index s = elim s.ctx [
    | none ↦ (done [], s)
    | some c ↦ elim c.usb_dev [
      | none ↦ (done [], s)
      | some handle ↦
          let (r, l, w) = enum.get_string handle index 512 s.world in
          (done (if is_negative r then [] else l), record s { world = w })
    ]
  ]

  abbrev read_descriptor : ℕ → Own W (ℤ × Descriptor)
  read_descriptor usbdev =
      on_world λ w. (let (r, desc, w') = enum.get_device_descriptor usbdev w in ((r, desc), w'))

  abbrev open_found : UsbDev → List ℕ → ℕ → Own W (Unit {0})
  open_found dev l usbdev = do
    r ← on_ctx (open_dev host enum usbdev)
    fail_free (is_negative r) l "Unable to open device"
    (r, desc) ← read_descriptor usbdev
    fail_free (is_nonzero r) l "Unable to get device descriptor"
    manufacturer ← string_of desc.manufacturer_string
    modify λ s. record s { manufacturer = manufacturer }
    description ← string_of desc.product_string
    modify λ s. record s { description = description }
    serial ← string_of desc.serial_number
    modify λ s. record s { serial = serial; config = record (s.config) { usb_device = dev } }
    free_list l

  -- ftdi_usb_find_all, on a context that is there
  abbrev list_all : UsbDev → Own W (ℤ × List ℕ)
  list_all dev s = elim s.ctx [
    | none ↦ (thrown "no context", s)
    | some c ↦
        let found = find_all host enum sizeof (word dev.vendor) (word dev.product) c s.world in
        (
          done (found.code, found.devices),
          record s { ctx = some (found.context); world = found.world },
        )
  ]

  -- Is one of the devices of the configuration there? The first that is gets opened.
  abbrev find_device : List UsbDev → Own W Bool
  find_device [] = pure false
  find_device (dev ∷ devs) = do
    (r, l) ← list_all dev
    throw_when (is_negative r) "ftdi_usb_find_all failed"
    elim (at_place l dev.device) [
      | none ↦ free_list l >> find_device devs
      | some usbdev ↦ open_found dev l usbdev >> pure true
    ]

  abbrev init_steps : Option ℕ → Own W (Unit {0})
  init_steps usb_ctx s =
      (do
        modify (context_clear host)
        make_usb usb_ctx
        make_ctx usb_ctx
        choose_port s.config.ftdi_port
        found ← find_device s.config.usb_devices
        throw_when (not found) "Unable to find usb device"
        set_ftdi_params host)
        s

  -- What is there is given back when there is an exception, as in `clear`.
  abbrev given_back : Outcome (Unit {0}) × Owner W → Outcome (Option Context) × Owner W
  given_back (done t, s) = (done s.ctx, s)
  given_back (thrown str, s) = (thrown str, context_clear host s)

  unfoldable pub context_init : Option ℕ → Own W (Option Context)
  context_init usb_ctx s = given_back (init_steps usb_ctx s)
