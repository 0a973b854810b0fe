-- ===== src/App/Cli.antt =====
-- app/minicam_cli.cpp: the options of the command line, the backend that they choose, and the lines that
-- are read. `std::stoi` and `std::stoul` are parameters that give none where they throw, and `words`
-- splits a line at its white space.
use text.Mathlib.Text.{◌==◌ as str_eq}
use minicam_hal.Common.{
  ℕ, ℤ, ◌≡◌, refl, arith, pos, Bool, true, false, ◌||◌, Option, none, some, List, [], ◌∷◌, String,
  if◌then◌else◌,
}
use minicam_hal.Interface.{StreamType, preview, still}
use minicam_hal.V4l2.{V4L2StreamConfig}

pub record CliOptions : Type 0 where
  pub use_v4l2 : Bool
  pub device_path : String
  pub preview_device_path : Option String
  pub still_device_path : Option String
  pub preview_output_path : Option String
  pub preview_frame_count : ℕ
  pub width : ℤ
  pub height : ℤ
  pub buffer_count : ℕ

abbrev pub default_options : CliOptions
default_options = record {
  use_v4l2 = false;
  device_path = "/dev/video0";
  preview_device_path = none;
  still_device_path = none;
  preview_output_path = none;
  preview_frame_count = 0;
  width = pos 640;
  height = pos 480;
  buffer_count = 4;
}

pub record Conversions : Type 0 where
  pub stoi : String → Option ℤ
  pub stoul : String → Option ℕ

-- The options that take the argument behind them.
pub data CliOption : Type 0 where
  v4l2 preview_v4l2 still_v4l2 preview_out preview_frames width_option height_option
        buffers_option :
      CliOption

unfoldable pub option_of : String → Option CliOption
option_of arg =
    if str_eq arg "--v4l2"
    then some v4l2
    else if str_eq arg "--preview-v4l2"
    then some preview_v4l2
    else if str_eq arg "--still-v4l2"
    then some still_v4l2
    else if str_eq arg "--preview-out"
    then some preview_out
    else if str_eq arg "--preview-frames"
    then some preview_frames
    else if str_eq arg "--width"
    then some width_option
    else if str_eq arg "--height"
    then some height_option
    else if str_eq arg "--buffers"
    then some buffers_option
    else none

module _ (conv : Conversions) where
  unfoldable pub set_option : CliOption → String → CliOptions → Option CliOptions
  set_option v4l2 value o = some (record o { use_v4l2 = true; device_path = value })
  set_option preview_v4l2 value o =
      some (record o { use_v4l2 = true; preview_device_path = some value })
  set_option still_v4l2 value o =
      some (record o { use_v4l2 = true; still_device_path = some value })
  set_option preview_out value o = some (record o { preview_output_path = some value })
  set_option preview_frames value o = elim (conv.stoul value) [
    | none ↦ none
    | some n ↦ some (record o { preview_frame_count = n })
  ]
  set_option width_option value o = elim (conv.stoi value) [
    | none ↦ none
    | some n ↦ some (record o { width = n })
  ]
  set_option height_option value o = elim (conv.stoi value) [
    | none ↦ none
    | some n ↦ some (record o { height = n })
  ]
  set_option buffers_option value o = elim (conv.stoul value) [
    | none ↦ none
    | some n ↦ some (record o { buffer_count = n })
  ]

  -- The loop of `parse_args` on the arguments behind the program's name: an unknown one is passed over,
  -- and so is an option at the end that lacks its argument.
  unfoldable pub parse_from : List String → CliOptions → Option CliOptions
  unfolding option_of set_option
  parse_from [] o = some o
  parse_from (arg ∷ []) o = some (if str_eq arg "--mock" then record o { use_v4l2 = false } else o)
  parse_from (arg ∷ value ∷ rest) o =
      let single =
        parse_from (value ∷ rest)
          (if str_eq arg "--mock" then record o { use_v4l2 = false } else o) in
      elim (option_of arg) [
        | none ↦ single
        | some option ↦ elim (set_option option value o) [
          | none ↦ none
          | some o' ↦ parse_from rest o'
        ]
      ]

  unfoldable pub parse_args : List String → Option CliOptions
  unfolding parse_from
  parse_args args = parse_from args default_options

-- The backend, before it is configured.
pub data DriverChoice : Type 0 where
  mock_driver : DriverChoice
  multi_stream_driver : List (StreamType × V4L2StreamConfig) → DriverChoice
  stream_driver : V4L2StreamConfig → DriverChoice

abbrev stream_config : CliOptions → String → V4L2StreamConfig
stream_config o path = record {
  device_path = path;
  width = o.width;
  height = o.height;
  pixel_format = 0;
  buffer_count = o.buffer_count;
}

abbrev value_or : Option String → String → String
value_or none s = s
value_or (some t) s = t

unfoldable pub make_driver : CliOptions → DriverChoice
make_driver o =
    let single = stream_driver (
      stream_config o
        (value_or o.still_device_path (value_or o.preview_device_path o.device_path))) in
    if o.use_v4l2
    then (elim o.preview_device_path [
      | none ↦ single
      | some p ↦ elim o.still_device_path [
        | none ↦ single
        | some s ↦
            multi_stream_driver ((preview, stream_config o p) ∷ (still, stream_config o s) ∷ [])
      ]
    ])
    else mock_driver

-- A line: none asks again, the empty text ends the program, and another is the path to write to.
unfoldable pub parse_capture_path : List String → Option String
parse_capture_path [] = none
parse_capture_path (command ∷ rest) =
    if str_eq command "quit" || str_eq command "exit"
    then some ""
    else if str_eq command "capture" || str_eq command "snap"
    then (elim rest [ [] ↦ none | path ∷ more ↦ some path ])
    else some command

abbrev path_args : String → Option String → List String → List String
path_args option none rest = rest
path_args option (some path) rest = option ∷ path ∷ rest

-- The texts of a command line's numbers.
pub record NumberTexts : Type 0 where
  pub frames_text : String
  pub width_text : String
  pub height_text : String
  pub buffers_text : String

-- A command line with every option that is set.
abbrev pub arguments : NumberTexts → CliOptions → List String
arguments texts o =
    "--v4l2"
    ∷ o.device_path
    ∷ path_args "--preview-v4l2" o.preview_device_path (
        path_args "--still-v4l2" o.still_device_path (
          path_args "--preview-out" o.preview_output_path (
            "--preview-frames" ∷ texts.frames_text ∷ "--width" ∷ texts.width_text ∷ "--height"
            ∷ texts.height_text ∷ "--buffers" ∷ texts.buffers_text ∷ [])))

module _ (conv : Conversions) where
  -- The options of a V4L2 run are read back from the command line that names them, whatever they are,
  -- when the texts of its numbers convert to them.
  pub parse_args-arguments :
      (o : CliOptions) (texts : NumberTexts)
      → o.use_v4l2 ≡ true
      → conv.stoul texts.frames_text ≡ some o.preview_frame_count
      → conv.stoi texts.width_text ≡ some o.width
      → conv.stoi texts.height_text ≡ some o.height
      → conv.stoul texts.buffers_text ≡ some o.buffer_count
      → parse_args conv (arguments texts o) ≡ some o
  unfolding parse_args parse_from option_of set_option
  parse_args-arguments o texts used frames width height buffers =
      go o.preview_device_path o.still_device_path o.preview_output_path refl refl refl
    where
      go :
          (p s out : Option String)
          → o.preview_device_path ≡ p
          → o.still_device_path ≡ s
          → o.preview_output_path ≡ out
          → parse_args conv (arguments texts o) ≡ some o
      go none none none e f g = ground (arith, used, e, f, g, frames, width, height, buffers)
      go none none (some z) e f g = ground (arith, used, e, f, g, frames, width, height, buffers)
      go none (some y) none e f g = ground (arith, used, e, f, g, frames, width, height, buffers)
      go none (some y) (some z) e f g =
          ground (arith, used, e, f, g, frames, width, height, buffers)
      go (some x) none none e f g = ground (arith, used, e, f, g, frames, width, height, buffers)
      go (some x) none (some z) e f g =
          ground (arith, used, e, f, g, frames, width, height, buffers)
      go (some x) (some y) none e f g =
          ground (arith, used, e, f, g, frames, width, height, buffers)
      go (some x) (some y) (some z) e f g =
          ground (arith, used, e, f, g, frames, width, height, buffers)
