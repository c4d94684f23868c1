-- ===== src/Logging/Destinations.antt =====
-- internal/app/machined/pkg/logging/zap.go: where a logger writes; pkg/runtime/logging.go: the options of
-- a reader of logs; and `MakeLogger` of controller.go. Package zap is a parameter.
use tailscale_os.Base.{◌≡◌, refl, Option, none, some, List, [], ◌∷◌, String, map}
use tailscale_os.Base.Int.{ℤ, pos}

-- `T` and `L` are the types of the encoders of times and of levels, `E` that of level enablers, and `W`
-- that of writers.
module _ (T L E W : Type 0) where
  -- The fields of `zapcore.EncoderConfig` that the code sets; a nil encoder leaves its part out.
  pub record EncoderConfig : Type 0 where
    pub encode_time : Option T
    pub encode_level : Option L
    pub console_separator : String
    pub stacktrace_key : String

  -- `LogDestination`
  pub record Destination : Type 0 where
    pub level : E
    pub writer : W
    pub config : EncoderConfig
    pub suppress_threshold : ℤ

  abbrev pub DestinationOption : Type 0
  DestinationOption = Destination → Destination

  abbrev pub without_timestamp : DestinationOption
  without_timestamp d = record d { config = record (d.config) { encode_time = none } }

  abbrev pub without_log_levels : DestinationOption
  without_log_levels d = record d { config = record (d.config) { encode_level = none } }

  abbrev pub with_colored_levels : L → DestinationOption
  with_colored_levels capital_color d = record d {
    config = record (d.config) { encode_level = some capital_color };
  }

  abbrev pub with_controller_error_suppressor : ℤ → DestinationOption
  with_controller_error_suppressor threshold d = record d { suppress_threshold = threshold }

  unfoldable pub apply_options : List DestinationOption → DestinationOption
  apply_options [] d = d
  apply_options (o ∷ os) d = apply_options os (o d)

  -- `NewLogDestination`, where `development` is what `NewDevelopmentEncoderConfig` gives.
  unfoldable pub new_log_destination : EncoderConfig → W → E → List DestinationOption → Destination
  unfolding apply_options
  new_log_destination development writer level options = apply_options options (record {
    level = level;
    writer = writer;
    config = record development { console_separator = " "; stacktrace_key = "error" };
    suppress_threshold = pos 0;
  })

  -- A core of a logger: how it encodes, where it writes, and for which levels.
  pub record Core : Type 0 where
    pub config : EncoderConfig
    pub writer : W
    pub level : E

  abbrev pub core_of : Destination → Core
  core_of d = record { config = d.config; writer = d.writer; level = d.level }

  -- `ZapLogger`: the cores that the logger writes to; `none` is the panic.
  unfoldable pub zap_logger : List Destination → Option (List Core)
  zap_logger [] = none
  zap_logger (d ∷ ds) = some (map core_of (d ∷ ds))

  -- `Wrap`
  unfoldable pub wrap : EncoderConfig → E → W → Option (List Core)
  unfolding zap_logger new_log_destination
  wrap development debug_level writer =
      zap_logger (new_log_destination development writer debug_level [] ∷ [])

  -- `MakeLogger`: its error, or the cores of its logger, and the name of its component.
  pub data Made : Type 0 where
    fails : String → Made
    makes : Option (List Core) → String → Made

  -- The second argument is the error of the writer of the log, or the writer; `std` is `StdWriter`.
  unfoldable pub make_logger : EncoderConfig → Option String → W → W → E → E → String → Made
  unfolding zap_logger new_log_destination
  make_logger development (some e) log std debug console name = fails e
  make_logger development none log std debug console name =
      makes
        (zap_logger (
          new_log_destination development log debug []
          ∷ new_log_destination development std console
              (without_timestamp ∷ without_log_levels ∷ [])
          ∷ []))
        name

  -- A logger that is made writes to its log with the encoders of the development configuration, and to
  -- the standard logger without a time and a level, which that one adds itself.
  made_logger :
      (development : EncoderConfig) (log std : W) (debug console : E) (name : String)
      → let c : EncoderConfig = record development {
        console_separator = " ";
        stacktrace_key = "error";
      } in
        make_logger development none log std debug console name
        ≡ makes
            (some (
              record { config = c; writer = log; level = debug }
              ∷ record {
                config = record c { encode_time = none; encode_level = none };
                writer = std;
                level = console;
              }
              ∷ []))
            name
  unfolding make_logger
  made_logger development log std debug console name = refl
