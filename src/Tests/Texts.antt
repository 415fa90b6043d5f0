-- ===== src/Tests/Texts.antt =====
-- Texts of numbers, names of instruments and frames at concrete inputs.
use crypto_trading_system.Prelude.{◌≡◌, refl, ◌++◌, [], ◌∷◌, codes, true, arith}
use crypto_trading_system.Prelude.Int.{negsuc}
use crypto_trading_system.Utils.{format}
use crypto_trading_system.Utils.Format.{read_scaled, format_exact}
use crypto_trading_system.Base64.{base64_encode}
use crypto_trading_system.Base64.Decoded.{base64_decode, base64_decode-base64_encode}
use crypto_trading_system.WebSocket.{send_frame, read_frame, Frame}
use crypto_trading_system.WebSocket.Frames.{read_frame-send_frame}

format_exact_example : read_scaled (format (negsuc 12_344) 3) ≡ negsuc 12_344
format_exact_example = format_exact (negsuc 12_344) 3 (omega arith)

read_frame-send_frame_example :
    read_frame (λ len. true) (send_frame (1 ∷ 2 ∷ 3 ∷ 4 ∷ []) 1 (codes "ping") ++ (9 ∷ []))
    ≡ Frame.frame (codes "ping") 1 (9 ∷ [])
read_frame-send_frame_example =
    read_frame-send_frame (λ len. true) (1 ∷ 2 ∷ 3 ∷ 4 ∷ []) (codes "ping") (9 ∷ []) 1 (omega arith)
      refl (ground arith) (omega arith) refl

base64_decode-base64_encode_example :
    base64_decode (base64_encode (77 ∷ 97 ∷ 110 ∷ 255 ∷ [])) ≡ 77 ∷ 97 ∷ 110 ∷ 255 ∷ []
base64_decode-base64_encode_example =
    base64_decode-base64_encode (77 ∷ 97 ∷ 110 ∷ 255 ∷ []) (ground arith)
