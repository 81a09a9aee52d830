-- ===== src/SndBuffer/File.antt =====
-- `addBufferFromFile`. A file is the bytes that are left in it; a read of more than it has fails after it.
use srtplay.Base.{
  ℕ, zero, suc, ◌+◌, ◌-◌, ◌*◌, min, ltb, ◌==◌, if◌then◌else◌, Bool, true, false, Option, none, some,
  update, List, length, take, drop, ◌>>=◌,
}
use srtplay.SndBuffer.{Block, SndBuffer, next_of, bitset_of, packets_of, make_room}

-- The block keeps its sequence number and its times.
unfoldable pub file_block : SndBuffer → List ℕ → ℕ → ℕ → Block → Block
file_block b bytes size i s = record s {
  payload = bytes;
  msgno_bitset = bitset_of b.next_msg_no true i size;
  ttl = none;
}

-- The rest of the packets: the block behind them, the bytes read, and what is left in the file.
unfoldable pub fill_from_file :
    ℕ → SndBuffer → List ℕ → Bool → ℕ → ℕ → ℕ → ℕ → ℕ → (ℕ × ℕ × List ℕ) × SndBuffer
fill_from_file zero b file failed len size i s total = ((s, total, file), b)
fill_from_file (suc rest) b file failed len size i s total =
    let wanted = min (len - i * b.mss) b.mss in
    let got = take wanted file in
    elim failed [
      | true ↦ ((s, total, file), b)
      | false ↦ elim (length got == 0) [
        | true ↦ ((s, total, file), b)
        | false ↦
            fill_from_file rest
              (record b { blocks = update b.blocks s (file_block b got size i (b.blocks s)) })
              (drop wanted file) (ltb (length got) wanted) len size (i + 1) (next_of b s)
              (total + length got)
      ]
    ]

-- The bytes read, and what is left in the file.
unfoldable pub add_buffer_from_file : SndBuffer → List ℕ → ℕ → Option ((ℕ × List ℕ) × SndBuffer)
add_buffer_from_file b file len =
    let size = packets_of b.mss len in
    make_room (size + b.count + 1) b size >>= λ b1.
    let r = fill_from_file size b1 file false len size 0 b1.last_block 0 in
    some (
      (r.0.1, r.0.2),
      record r.1 {
        last_block = r.0.0;
        count = r.1.count + size;
        bytes_count = r.1.bytes_count + r.0.1;
        next_msg_no = if r.1.next_msg_no + 1 == 0x3FFFFFF then 1 else r.1.next_msg_no + 1;
      },
    )
