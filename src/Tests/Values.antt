-- ===== src/Tests/Values.antt =====
-- The functions on numbers and texts, at concrete values.
use vimbax_ros2_driver.Common.{
  ℕ, ◌+◌, ◌*◌, ◌/◌, ◌%◌, ◌^◌, ◌≤◌, ◌<◌, ◌≡◌, refl, ◌⊎◌, true, false, some, List, [], ◌∷◌, pos,
  value, arith, ◌↔◌,
}
use vimbax_ros2_driver.Error.{no_error, not_found, vmb_error_to_string}
use vimbax_ros2_driver.Error.Names.{code_of_text, code_of_text-vmb_error_to_string}
use vimbax_ros2_driver.Camera.Frames.{aligned_size, make_frame}
use vimbax_ros2_driver.Camera.Frames.Align.{aligned_size-least, make_frame-size}
use vimbax_ros2_driver.Camera.Frames.Timestamp.{timestamp_to_ns, timestamp_to_ns-slow, nano_den}
use vimbax_ros2_driver.Camera.Queue.{Places, complete, incomplete, take_next, finish, frame_run}
use vimbax_ros2_driver.Camera.Queue.Flow.{Kept, Kept-frame_run}
use vimbax_ros2_driver.Shift.{left_shift16_vector, left_shift16_default, shift_words}
use vimbax_ros2_driver.Shift.Vector.{left_shift16_vector-default, left_shift16_vector-short}
use vimbax_ros2_driver.Events.{
  PublisherStep, subscribe_step, unsubscribe_step, timer_step, publisher_run,
}
use vimbax_ros2_driver.Events.Balance.{accept_all, names_of}
use vimbax_ros2_driver.Events.Runs.{publisher_run-accept_all}
use vimbax_ros2_driver.Loader.{split_string, index_of}
use vimbax_ros2_driver.Loader.Ends.{IsValue, split_string-IsValue}
use vimbax_ros2_driver.Loader.Parts.{split_string-pair, split_string-overrun}
use vimbax_ros2_driver.Address.{decode_ip_addr}
use vimbax_ros2_driver.Address.Text.{ip_text, mac_text}
use vimbax_ros2_driver.Address.Mac.{decode_mac_addr}
use vimbax_ros2_driver.Address.Letters.{decode_mac_addr-throws}
use vimbax_ros2_driver.Pixel.Samples.{shift_of-sample_bits_of}
use vimbax_ros2_driver.Pixel.{shift_of}
use vimbax_ros2_driver.Shift.{shift_word}
use vimbax_ros2_driver.Common.{aborted, invalid_argument, none}
use vimbax_ros2_driver.Address.Mac.{Pair, pairs}
use vimbax_ros2_driver.Address.RoundTrip.{decode_ip_addr-ip_text, decode_mac_addr-mac_text}
use vimbax_ros2_driver.Pixel.Formats
use vimbax_ros2_driver.Pixel.{
  Encoding, mono8, mono16, bayer_grbg8, bayer_rggb8, bayer_gbrg8, bayer_bggr8, bayer_grbg16,
  bayer_rggb16, bayer_gbrg16, bayer_bggr16, rgb8, bgr8, rgb16, bgr16, rgba8, bgra8, rgba16, bgra16,
  yuv422, yuv422_yuy2, type_8uc1, is_valid_pixel_format,
}
use vimbax_ros2_driver.Pixel.Encodings.{EncodingLaws, Agrees, get_image_encoding-Agrees}

not_found_text :
    (vmb_error_to_string not_found ≡ "VmbErrorCustom")
    ⊎ (code_of_text (vmb_error_to_string not_found) ≡ some not_found)
not_found_text = code_of_text-vmb_error_to_string not_found

aligned_to_64 :
    (100 ≤ aligned_size 100 (2 ^ 6))
    × (aligned_size 100 (2 ^ 6) < 100 + 2 ^ 6)
    × (aligned_size 100 (2 ^ 6) % 2 ^ 6 ≡ 0)
aligned_to_64 = aligned_size-least 6 100 (omega arith)

make_frame-size_example :
    let f = make_frame 0 (pos 10) 128 100 (aligned_size 100 (2 ^ 6)) in
    (f.size ≤ 128)
    × (128 < f.size + 2 ^ 6)
    × ((f.vmb_frame.buffer ≡ true) ↔ (128 ≡ aligned_size 100 (2 ^ 6)))
    × (f.vmb_frame.buffer ≡ true → f.vmb_frame.buffer_size ≡ f.size)
    × (f.vmb_frame.buffer ≡ false → f.size ≡ 128)
make_frame-size_example = make_frame-size 0 6 100 128 (pos 10) (omega arith)

slow_300_mhz : 15 * 300_000_000 < 5 * nano_den
unfolding timestamp_to_ns
slow_300_mhz =
    timestamp_to_ns-slow 300_000_000 5 (omega arith) (omega arith) (omega arith) (omega arith) 15
      refl

left_shift16_vector-default_example :
    (left_shift16_vector 2 (0 ∷ 0 ∷ 0 ∷ []) (1 ∷ 2 ∷ 3 ∷ []) 6 4
      ≡ left_shift16_default (0 ∷ 0 ∷ 0 ∷ []) (1 ∷ 2 ∷ 3 ∷ []) 6 4)
    × (left_shift16_default (0 ∷ 0 ∷ 0 ∷ []) (1 ∷ 2 ∷ 3 ∷ []) 6 4
        ≡ some (shift_words 4 (6 / 2) (0 ∷ 0 ∷ 0 ∷ []) (1 ∷ 2 ∷ 3 ∷ [])))
left_shift16_vector-default_example =
    left_shift16_vector-default 2 (0 ∷ 0 ∷ 0 ∷ []) (1 ∷ 2 ∷ 3 ∷ []) 6 4 (omega arith) (omega arith)
      (omega arith) (omega arith) (omega arith)

-- Three words are less than a vector of eight.
short_row : left_shift16_vector 8 (0 ∷ 0 ∷ 0 ∷ []) (1 ∷ 2 ∷ 3 ∷ []) 6 4 ≡ some (0 ∷ 0 ∷ 0 ∷ [])
short_row = left_shift16_vector-short 8 (0 ∷ 0 ∷ 0 ∷ []) (1 ∷ 2 ∷ 3 ∷ []) 6 4 (omega arith)

ip_round_trip : decode_ip_addr (ip_text 3232235777) ≡ some 3232235777
ip_round_trip = decode_ip_addr-ip_text 3232235777 (omega arith)

decode_mac_addr-mac_text_example : decode_mac_addr (mac_text 16462938245) ≡ value (some 16462938245)
decode_mac_addr-mac_text_example = decode_mac_addr-mac_text 16462938245 (omega arith)

-- The bits of a pixel that sensor_msgs documents.
abbrev bit_depth : Encoding → ℕ
bit_depth mono8 = 8
bit_depth bayer_grbg8 = 8
bit_depth bayer_rggb8 = 8
bit_depth bayer_gbrg8 = 8
bit_depth bayer_bggr8 = 8
bit_depth type_8uc1 = 8
bit_depth rgb8 = 24
bit_depth bgr8 = 24
bit_depth rgba8 = 32
bit_depth bgra8 = 32
bit_depth rgb16 = 48
bit_depth bgr16 = 48
bit_depth rgba16 = 64
bit_depth bgra16 = 64
bit_depth mono16 = 16
bit_depth bayer_grbg16 = 16
bit_depth bayer_rggb16 = 16
bit_depth bayer_gbrg16 = 16
bit_depth bayer_bggr16 = 16
bit_depth yuv422 = 16
bit_depth yuv422_yuy2 = 16

bit_depth-EncodingLaws : EncodingLaws bit_depth
bit_depth-EncodingLaws = record {
  mono8_bits = refl;
  mono16_bits = refl;
  bayer_grbg8_bits = refl;
  bayer_rggb8_bits = refl;
  bayer_gbrg8_bits = refl;
  bayer_bggr8_bits = refl;
  bayer_grbg16_bits = refl;
  bayer_rggb16_bits = refl;
  bayer_gbrg16_bits = refl;
  bayer_bggr16_bits = refl;
  rgb8_bits = refl;
  bgr8_bits = refl;
  yuv422_bits = refl;
  yuv422_yuy2_bits = refl;
}

bayer_rg12_encoding : Agrees bit_depth Formats.bayer_rg12
unfolding is_valid_pixel_format
bayer_rg12_encoding =
    get_image_encoding-Agrees bit_depth bit_depth-EncodingLaws Formats.bayer_rg12 refl

-- Two subscriptions, one withdrawal, and a pass of the timer that finds nobody listening.
abbrev steps : List PublisherStep
steps =
    subscribe_step (λ name. no_error) "Test"
    ∷ subscribe_step (λ name. no_error) "Test"
    ∷ unsubscribe_step "Test"
    ∷ timer_step (λ name. 0)
    ∷ []

publisher_run-accept_all_example :
    accept_all (publisher_run steps []).0 [] ≡ some (names_of (publisher_run steps []).1)
publisher_run-accept_all_example = publisher_run-accept_all steps []

empty_parts : IsValue (split_string b':' (b'a' ∷ b':' ∷ b':' ∷ []))
empty_parts = split_string-IsValue b':' (b'a' ∷ b':' ∷ b':' ∷ [])

split_pair : split_string b':' (b'a' ∷ b':' ∷ b'b' ∷ []) ≡ value ((b'a' ∷ []) ∷ (b'b' ∷ []) ∷ [])
unfolding index_of
split_pair = split_string-pair b':' (b'a' ∷ []) (b'b' ∷ []) (omega arith) refl refl

split_string-overrun_example :
    split_string b':' (b'a' ∷ b':' ∷ b'b' ∷ b':' ∷ b'c' ∷ b'd' ∷ [])
    ≡ value ((b'a' ∷ []) ∷ (b'b' ∷ b':' ∷ b'c' ∷ []) ∷ (b'c' ∷ b'd' ∷ []) ∷ [])
unfolding index_of
split_string-overrun_example =
    split_string-overrun b':' (b'a' ∷ []) (b'b' ∷ []) (b'c' ∷ b'd' ∷ []) (omega arith) refl refl
      refl

mono12_shift : (shift_of Formats.mono12 ≡ some 4) × (shift_word 4 4095 ≡ 4095 * 2 ^ 4)
mono12_shift = shift_of-sample_bits_of Formats.mono12 12 4095 refl (omega arith)

-- The name of a camera with twelve characters: it is no MAC address, but the pattern matches it.
abbrev twelve_letters : List ℕ
twelve_letters =
    b'm' ∷ b'y' ∷ b'f' ∷ b'a' ∷ b'v' ∷ b'c' ∷ b'a' ∷ b'm' ∷ b'e' ∷ b'r' ∷ b'a' ∷ b'1' ∷ []

abbrev letter_pairs : List Pair
letter_pairs =
    (b'm', b'y') ∷ (b'f', b'a') ∷ (b'v', b'c') ∷ (b'a', b'm') ∷ (b'e', b'r') ∷ (b'a', b'1') ∷ []

mac_letters_throw : decode_mac_addr twelve_letters ≡ aborted invalid_argument
unfolding pairs
mac_letters_throw = decode_mac_addr-throws twelve_letters letter_pairs refl refl

-- Three frames: one comes back whole and is handled, one comes back broken.
abbrev three_frames : Places
three_frames = record { queued = 0 ∷ 1 ∷ 2 ∷ []; ready = []; busy = none; lost = [] }

Kept-after_run :
    Kept 1 1
      (frame_run (complete 1 ∷ take_next ∷ incomplete 0 true ∷ finish true ∷ []) three_frames)
Kept-after_run =
    Kept-frame_run 1 (complete 1 ∷ take_next ∷ incomplete 0 true ∷ finish true ∷ []) three_frames
