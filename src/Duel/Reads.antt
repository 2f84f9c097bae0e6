-- ===== src/Duel/Reads.antt =====
-- How both sides read a MARK command.
use cmput.Base.{ℕ, zero, suc, ◌+◌, ◌≤◌, ◌≡◌, refl, ◌∷◌, [], ◌++◌, some, arith}
use cmput.Text.{
  c_string, cut_newline, span, next_token, two_words, strtok_two, value, scan_digits, scan_number,
  atoi, word_of, scan_command, mark_word,
}
use cmput.Duel.{mark_text}

-- What is read from the line, from the message of the client, and from that of the server.
pub record IsRead (d : ℕ) : Type 0 where
  pub cut : cut_newline (mark_text d ++ (10 ∷ [])) ≡ mark_text d
  pub sent : c_string (mark_text d) ≡ mark_text d
  pub received : c_string (mark_text d ++ (0 ∷ [])) ≡ mark_text d
  pub scanned : scan_command (mark_text d) ≡ some (mark_word, d)
  pub words : strtok_two (mark_text d) ≡ two_words mark_word mark_word ((48 + d) ∷ [])
  pub number : atoi ((48 + d) ∷ []) ≡ d

below_ten :
    (P : ℕ → Type 0)
    → P 0
    → P 1
    → P 2
    → P 3
    → P 4
    → P 5
    → P 6
    → P 7
    → P 8
    → P 9
    → (d : ℕ) → d ≤ 9
    → P d
below_ten P a b c e f g h i j k zero l = a
below_ten P a b c e f g h i j k (suc zero) l = b
below_ten P a b c e f g h i j k (suc (suc zero)) l = c
below_ten P a b c e f g h i j k (suc (suc (suc zero))) l = e
below_ten P a b c e f g h i j k (suc (suc (suc (suc zero)))) l = f
below_ten P a b c e f g h i j k (suc (suc (suc (suc (suc zero))))) l = g
below_ten P a b c e f g h i j k (suc (suc (suc (suc (suc (suc zero)))))) l = h
below_ten P a b c e f g h i j k (suc (suc (suc (suc (suc (suc (suc zero))))))) l = i
below_ten P a b c e f g h i j k (suc (suc (suc (suc (suc (suc (suc (suc zero)))))))) l = j
below_ten P a b c e f g h i j k (suc (suc (suc (suc (suc (suc (suc (suc (suc zero))))))))) l = k
below_ten P a b c e f g h i j k (suc (suc (suc (suc (suc (suc (suc (suc (suc (suc n)))))))))) l =
    absurd (omega arith)

pub mark_text-IsRead : (d : ℕ) → d ≤ 9 → IsRead d
unfolding cut_newline c_string span next_token strtok_two value scan_digits scan_number atoi word_of
    scan_command
mark_text-IsRead =
    below_ten IsRead
      (record {
        cut = refl;
        sent = refl;
        received = refl;
        scanned = refl;
        words = refl;
        number = refl;
      })
      (record {
        cut = refl;
        sent = refl;
        received = refl;
        scanned = refl;
        words = refl;
        number = refl;
      })
      (record {
        cut = refl;
        sent = refl;
        received = refl;
        scanned = refl;
        words = refl;
        number = refl;
      })
      (record {
        cut = refl;
        sent = refl;
        received = refl;
        scanned = refl;
        words = refl;
        number = refl;
      })
      (record {
        cut = refl;
        sent = refl;
        received = refl;
        scanned = refl;
        words = refl;
        number = refl;
      })
      (record {
        cut = refl;
        sent = refl;
        received = refl;
        scanned = refl;
        words = refl;
        number = refl;
      })
      (record {
        cut = refl;
        sent = refl;
        received = refl;
        scanned = refl;
        words = refl;
        number = refl;
      })
      (record {
        cut = refl;
        sent = refl;
        received = refl;
        scanned = refl;
        words = refl;
        number = refl;
      })
      (record {
        cut = refl;
        sent = refl;
        received = refl;
        scanned = refl;
        words = refl;
        number = refl;
      })
      (record {
        cut = refl;
        sent = refl;
        received = refl;
        scanned = refl;
        words = refl;
        number = refl;
      })
