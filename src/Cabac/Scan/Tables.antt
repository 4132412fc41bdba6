-- ===== src/Cabac/Scan/Tables.antt =====
-- The scans of a block in src/Cabac.cpp: where the k-th coefficient stands, for the scan index and, as its binary
-- logarithm, the size. A scan index is 0 zig-zag, 1 horizontal, 2 vertical, 3 diagonal.
use ces.Prelude.{ℕ, zero, suc, List, [], ◌∷◌}

unfoldable pub scan_idx_2 : ℕ → List ℕ
scan_idx_2 zero = 0 ∷ 1 ∷ 2 ∷ 3 ∷ []
scan_idx_2 (suc zero) = 0 ∷ 1 ∷ 2 ∷ 3 ∷ []
scan_idx_2 (suc (suc zero)) = 0 ∷ 2 ∷ 1 ∷ 3 ∷ []
scan_idx_2 (suc (suc (suc scan_idx))) = 0 ∷ 2 ∷ 1 ∷ 3 ∷ []

unfoldable pub scan_idx_4 : ℕ → List ℕ
scan_idx_4 zero = 0 ∷ 1 ∷ 4 ∷ 8 ∷ 5 ∷ 2 ∷ 3 ∷ 6 ∷ 9 ∷ 12 ∷ 13 ∷ 10 ∷ 7 ∷ 11 ∷ 14 ∷ 15 ∷ []
scan_idx_4 (suc zero) = 0 ∷ 1 ∷ 2 ∷ 3 ∷ 4 ∷ 5 ∷ 6 ∷ 7 ∷ 8 ∷ 9 ∷ 10 ∷ 11 ∷ 12 ∷ 13 ∷ 14 ∷ 15 ∷ []
scan_idx_4 (suc (suc zero)) =
    0 ∷ 4 ∷ 8 ∷ 12 ∷ 1 ∷ 5 ∷ 9 ∷ 13 ∷ 2 ∷ 6 ∷ 10 ∷ 14 ∷ 3 ∷ 7 ∷ 11 ∷ 15 ∷ []
scan_idx_4 (suc (suc (suc scan_idx))) =
    0 ∷ 4 ∷ 1 ∷ 8 ∷ 5 ∷ 2 ∷ 12 ∷ 9 ∷ 6 ∷ 3 ∷ 13 ∷ 10 ∷ 7 ∷ 14 ∷ 11 ∷ 15 ∷ []

unfoldable pub scan_idx_8 : ℕ → List ℕ
scan_idx_8 zero =
    0 ∷ 1 ∷ 8 ∷ 16 ∷ 9 ∷ 2 ∷ 3 ∷ 10 ∷ 17 ∷ 24 ∷ 32 ∷ 25 ∷ 18 ∷ 11 ∷ 4 ∷ 5 ∷ 12 ∷ 19 ∷ 26 ∷ 33 ∷ 40
    ∷ 48 ∷ 41 ∷ 34 ∷ 27 ∷ 20 ∷ 13 ∷ 6 ∷ 7 ∷ 14 ∷ 21 ∷ 28 ∷ 35 ∷ 42 ∷ 49 ∷ 56 ∷ 57 ∷ 50 ∷ 43 ∷ 36
    ∷ 29 ∷ 22 ∷ 15 ∷ 23 ∷ 30 ∷ 37 ∷ 44 ∷ 51 ∷ 58 ∷ 59 ∷ 52 ∷ 45 ∷ 38 ∷ 31 ∷ 39 ∷ 46 ∷ 53 ∷ 60 ∷ 61
    ∷ 54 ∷ 47 ∷ 55 ∷ 62 ∷ 63 ∷ []
scan_idx_8 (suc zero) =
    0 ∷ 1 ∷ 2 ∷ 3 ∷ 8 ∷ 9 ∷ 10 ∷ 11 ∷ 16 ∷ 17 ∷ 18 ∷ 19 ∷ 24 ∷ 25 ∷ 26 ∷ 27 ∷ 4 ∷ 5 ∷ 6 ∷ 7 ∷ 12
    ∷ 13 ∷ 14 ∷ 15 ∷ 20 ∷ 21 ∷ 22 ∷ 23 ∷ 28 ∷ 29 ∷ 30 ∷ 31 ∷ 32 ∷ 33 ∷ 34 ∷ 35 ∷ 40 ∷ 41 ∷ 42 ∷ 43
    ∷ 48 ∷ 49 ∷ 50 ∷ 51 ∷ 56 ∷ 57 ∷ 58 ∷ 59 ∷ 36 ∷ 37 ∷ 38 ∷ 39 ∷ 44 ∷ 45 ∷ 46 ∷ 47 ∷ 52 ∷ 53 ∷ 54
    ∷ 55 ∷ 60 ∷ 61 ∷ 62 ∷ 63 ∷ []
scan_idx_8 (suc (suc zero)) =
    0 ∷ 8 ∷ 16 ∷ 24 ∷ 1 ∷ 9 ∷ 17 ∷ 25 ∷ 2 ∷ 10 ∷ 18 ∷ 26 ∷ 3 ∷ 11 ∷ 19 ∷ 27 ∷ 32 ∷ 40 ∷ 48 ∷ 56 ∷ 33
    ∷ 41 ∷ 49 ∷ 57 ∷ 34 ∷ 42 ∷ 50 ∷ 58 ∷ 35 ∷ 43 ∷ 51 ∷ 59 ∷ 4 ∷ 12 ∷ 20 ∷ 28 ∷ 5 ∷ 13 ∷ 21 ∷ 29 ∷ 6
    ∷ 14 ∷ 22 ∷ 30 ∷ 7 ∷ 15 ∷ 23 ∷ 31 ∷ 36 ∷ 44 ∷ 52 ∷ 60 ∷ 37 ∷ 45 ∷ 53 ∷ 61 ∷ 38 ∷ 46 ∷ 54 ∷ 62
    ∷ 39 ∷ 47 ∷ 55 ∷ 63 ∷ []
scan_idx_8 (suc (suc (suc scan_idx))) =
    0 ∷ 8 ∷ 1 ∷ 16 ∷ 9 ∷ 2 ∷ 24 ∷ 17 ∷ 10 ∷ 3 ∷ 25 ∷ 18 ∷ 11 ∷ 26 ∷ 19 ∷ 27 ∷ 32 ∷ 40 ∷ 33 ∷ 48 ∷ 41
    ∷ 34 ∷ 56 ∷ 49 ∷ 42 ∷ 35 ∷ 57 ∷ 50 ∷ 43 ∷ 58 ∷ 51 ∷ 59 ∷ 4 ∷ 12 ∷ 5 ∷ 20 ∷ 13 ∷ 6 ∷ 28 ∷ 21 ∷ 14
    ∷ 7 ∷ 29 ∷ 22 ∷ 15 ∷ 30 ∷ 23 ∷ 31 ∷ 36 ∷ 44 ∷ 37 ∷ 52 ∷ 45 ∷ 38 ∷ 60 ∷ 53 ∷ 46 ∷ 39 ∷ 61 ∷ 54
    ∷ 47 ∷ 62 ∷ 55 ∷ 63 ∷ []

unfoldable pub scan_idx_16 : ℕ → List ℕ
scan_idx_16 zero =
    0 ∷ 1 ∷ 16 ∷ 32 ∷ 17 ∷ 2 ∷ 3 ∷ 18 ∷ 33 ∷ 48 ∷ 64 ∷ 49 ∷ 34 ∷ 19 ∷ 4 ∷ 5 ∷ 20 ∷ 35 ∷ 50 ∷ 65 ∷ 80
    ∷ 96 ∷ 81 ∷ 66 ∷ 51 ∷ 36 ∷ 21 ∷ 6 ∷ 7 ∷ 22 ∷ 37 ∷ 52 ∷ 67 ∷ 82 ∷ 97 ∷ 112 ∷ 128 ∷ 113 ∷ 98 ∷ 83
    ∷ 68 ∷ 53 ∷ 38 ∷ 23 ∷ 8 ∷ 9 ∷ 24 ∷ 39 ∷ 54 ∷ 69 ∷ 84 ∷ 99 ∷ 114 ∷ 129 ∷ 144 ∷ 160 ∷ 145 ∷ 130
    ∷ 115 ∷ 100 ∷ 85 ∷ 70 ∷ 55 ∷ 40 ∷ 25 ∷ 10 ∷ 11 ∷ 26 ∷ 41 ∷ 56 ∷ 71 ∷ 86 ∷ 101 ∷ 116 ∷ 131 ∷ 146
    ∷ 161 ∷ 176 ∷ 192 ∷ 177 ∷ 162 ∷ 147 ∷ 132 ∷ 117 ∷ 102 ∷ 87 ∷ 72 ∷ 57 ∷ 42 ∷ 27 ∷ 12 ∷ 13 ∷ 28
    ∷ 43 ∷ 58 ∷ 73 ∷ 88 ∷ 103 ∷ 118 ∷ 133 ∷ 148 ∷ 163 ∷ 178 ∷ 193 ∷ 208 ∷ 224 ∷ 209 ∷ 194 ∷ 179
    ∷ 164 ∷ 149 ∷ 134 ∷ 119 ∷ 104 ∷ 89 ∷ 74 ∷ 59 ∷ 44 ∷ 29 ∷ 14 ∷ 15 ∷ 30 ∷ 45 ∷ 60 ∷ 75 ∷ 90 ∷ 105
    ∷ 120 ∷ 135 ∷ 150 ∷ 165 ∷ 180 ∷ 195 ∷ 210 ∷ 225 ∷ 240 ∷ 241 ∷ 226 ∷ 211 ∷ 196 ∷ 181 ∷ 166 ∷ 151
    ∷ 136 ∷ 121 ∷ 106 ∷ 91 ∷ 76 ∷ 61 ∷ 46 ∷ 31 ∷ 47 ∷ 62 ∷ 77 ∷ 92 ∷ 107 ∷ 122 ∷ 137 ∷ 152 ∷ 167
    ∷ 182 ∷ 197 ∷ 212 ∷ 227 ∷ 242 ∷ 243 ∷ 228 ∷ 213 ∷ 198 ∷ 183 ∷ 168 ∷ 153 ∷ 138 ∷ 123 ∷ 108 ∷ 93
    ∷ 78 ∷ 63 ∷ 79 ∷ 94 ∷ 109 ∷ 124 ∷ 139 ∷ 154 ∷ 169 ∷ 184 ∷ 199 ∷ 214 ∷ 229 ∷ 244 ∷ 245 ∷ 230
    ∷ 215 ∷ 200 ∷ 185 ∷ 170 ∷ 155 ∷ 140 ∷ 125 ∷ 110 ∷ 95 ∷ 111 ∷ 126 ∷ 141 ∷ 156 ∷ 171 ∷ 186 ∷ 201
    ∷ 216 ∷ 231 ∷ 246 ∷ 247 ∷ 232 ∷ 217 ∷ 202 ∷ 187 ∷ 172 ∷ 157 ∷ 142 ∷ 127 ∷ 143 ∷ 158 ∷ 173 ∷ 188
    ∷ 203 ∷ 218 ∷ 233 ∷ 248 ∷ 249 ∷ 234 ∷ 219 ∷ 204 ∷ 189 ∷ 174 ∷ 159 ∷ 175 ∷ 190 ∷ 205 ∷ 220 ∷ 235
    ∷ 250 ∷ 251 ∷ 236 ∷ 221 ∷ 206 ∷ 191 ∷ 207 ∷ 222 ∷ 237 ∷ 252 ∷ 253 ∷ 238 ∷ 223 ∷ 239 ∷ 254 ∷ 255
    ∷ []
scan_idx_16 (suc zero) =
    0 ∷ 1 ∷ 2 ∷ 3 ∷ 16 ∷ 17 ∷ 18 ∷ 19 ∷ 32 ∷ 33 ∷ 34 ∷ 35 ∷ 48 ∷ 49 ∷ 50 ∷ 51 ∷ 4 ∷ 5 ∷ 6 ∷ 7 ∷ 20
    ∷ 21 ∷ 22 ∷ 23 ∷ 36 ∷ 37 ∷ 38 ∷ 39 ∷ 52 ∷ 53 ∷ 54 ∷ 55 ∷ 8 ∷ 9 ∷ 10 ∷ 11 ∷ 24 ∷ 25 ∷ 26 ∷ 27
    ∷ 40 ∷ 41 ∷ 42 ∷ 43 ∷ 56 ∷ 57 ∷ 58 ∷ 59 ∷ 12 ∷ 13 ∷ 14 ∷ 15 ∷ 28 ∷ 29 ∷ 30 ∷ 31 ∷ 44 ∷ 45 ∷ 46
    ∷ 47 ∷ 60 ∷ 61 ∷ 62 ∷ 63 ∷ 64 ∷ 65 ∷ 66 ∷ 67 ∷ 80 ∷ 81 ∷ 82 ∷ 83 ∷ 96 ∷ 97 ∷ 98 ∷ 99 ∷ 112 ∷ 113
    ∷ 114 ∷ 115 ∷ 68 ∷ 69 ∷ 70 ∷ 71 ∷ 84 ∷ 85 ∷ 86 ∷ 87 ∷ 100 ∷ 101 ∷ 102 ∷ 103 ∷ 116 ∷ 117 ∷ 118
    ∷ 119 ∷ 72 ∷ 73 ∷ 74 ∷ 75 ∷ 88 ∷ 89 ∷ 90 ∷ 91 ∷ 104 ∷ 105 ∷ 106 ∷ 107 ∷ 120 ∷ 121 ∷ 122 ∷ 123
    ∷ 76 ∷ 77 ∷ 78 ∷ 79 ∷ 92 ∷ 93 ∷ 94 ∷ 95 ∷ 108 ∷ 109 ∷ 110 ∷ 111 ∷ 124 ∷ 125 ∷ 126 ∷ 127 ∷ 128
    ∷ 129 ∷ 130 ∷ 131 ∷ 144 ∷ 145 ∷ 146 ∷ 147 ∷ 160 ∷ 161 ∷ 162 ∷ 163 ∷ 176 ∷ 177 ∷ 178 ∷ 179 ∷ 132
    ∷ 133 ∷ 134 ∷ 135 ∷ 148 ∷ 149 ∷ 150 ∷ 151 ∷ 164 ∷ 165 ∷ 166 ∷ 167 ∷ 180 ∷ 181 ∷ 182 ∷ 183 ∷ 136
    ∷ 137 ∷ 138 ∷ 139 ∷ 152 ∷ 153 ∷ 154 ∷ 155 ∷ 168 ∷ 169 ∷ 170 ∷ 171 ∷ 184 ∷ 185 ∷ 186 ∷ 187 ∷ 140
    ∷ 141 ∷ 142 ∷ 143 ∷ 156 ∷ 157 ∷ 158 ∷ 159 ∷ 172 ∷ 173 ∷ 174 ∷ 175 ∷ 188 ∷ 189 ∷ 190 ∷ 191 ∷ 192
    ∷ 193 ∷ 194 ∷ 195 ∷ 208 ∷ 209 ∷ 210 ∷ 211 ∷ 224 ∷ 225 ∷ 226 ∷ 227 ∷ 240 ∷ 241 ∷ 242 ∷ 243 ∷ 196
    ∷ 197 ∷ 198 ∷ 199 ∷ 212 ∷ 213 ∷ 214 ∷ 215 ∷ 228 ∷ 229 ∷ 230 ∷ 231 ∷ 244 ∷ 245 ∷ 246 ∷ 247 ∷ 200
    ∷ 201 ∷ 202 ∷ 203 ∷ 216 ∷ 217 ∷ 218 ∷ 219 ∷ 232 ∷ 233 ∷ 234 ∷ 235 ∷ 248 ∷ 249 ∷ 250 ∷ 251 ∷ 204
    ∷ 205 ∷ 206 ∷ 207 ∷ 220 ∷ 221 ∷ 222 ∷ 223 ∷ 236 ∷ 237 ∷ 238 ∷ 239 ∷ 252 ∷ 253 ∷ 254 ∷ 255 ∷ []
scan_idx_16 (suc (suc zero)) =
    0 ∷ 16 ∷ 32 ∷ 48 ∷ 1 ∷ 17 ∷ 33 ∷ 49 ∷ 2 ∷ 18 ∷ 34 ∷ 50 ∷ 3 ∷ 19 ∷ 35 ∷ 51 ∷ 64 ∷ 80 ∷ 96 ∷ 112
    ∷ 65 ∷ 81 ∷ 97 ∷ 113 ∷ 66 ∷ 82 ∷ 98 ∷ 114 ∷ 67 ∷ 83 ∷ 99 ∷ 115 ∷ 128 ∷ 144 ∷ 160 ∷ 176 ∷ 129
    ∷ 145 ∷ 161 ∷ 177 ∷ 130 ∷ 146 ∷ 162 ∷ 178 ∷ 131 ∷ 147 ∷ 163 ∷ 179 ∷ 192 ∷ 208 ∷ 224 ∷ 240 ∷ 193
    ∷ 209 ∷ 225 ∷ 241 ∷ 194 ∷ 210 ∷ 226 ∷ 242 ∷ 195 ∷ 211 ∷ 227 ∷ 243 ∷ 4 ∷ 20 ∷ 36 ∷ 52 ∷ 5 ∷ 21
    ∷ 37 ∷ 53 ∷ 6 ∷ 22 ∷ 38 ∷ 54 ∷ 7 ∷ 23 ∷ 39 ∷ 55 ∷ 68 ∷ 84 ∷ 100 ∷ 116 ∷ 69 ∷ 85 ∷ 101 ∷ 117 ∷ 70
    ∷ 86 ∷ 102 ∷ 118 ∷ 71 ∷ 87 ∷ 103 ∷ 119 ∷ 132 ∷ 148 ∷ 164 ∷ 180 ∷ 133 ∷ 149 ∷ 165 ∷ 181 ∷ 134
    ∷ 150 ∷ 166 ∷ 182 ∷ 135 ∷ 151 ∷ 167 ∷ 183 ∷ 196 ∷ 212 ∷ 228 ∷ 244 ∷ 197 ∷ 213 ∷ 229 ∷ 245 ∷ 198
    ∷ 214 ∷ 230 ∷ 246 ∷ 199 ∷ 215 ∷ 231 ∷ 247 ∷ 8 ∷ 24 ∷ 40 ∷ 56 ∷ 9 ∷ 25 ∷ 41 ∷ 57 ∷ 10 ∷ 26 ∷ 42
    ∷ 58 ∷ 11 ∷ 27 ∷ 43 ∷ 59 ∷ 72 ∷ 88 ∷ 104 ∷ 120 ∷ 73 ∷ 89 ∷ 105 ∷ 121 ∷ 74 ∷ 90 ∷ 106 ∷ 122 ∷ 75
    ∷ 91 ∷ 107 ∷ 123 ∷ 136 ∷ 152 ∷ 168 ∷ 184 ∷ 137 ∷ 153 ∷ 169 ∷ 185 ∷ 138 ∷ 154 ∷ 170 ∷ 186 ∷ 139
    ∷ 155 ∷ 171 ∷ 187 ∷ 200 ∷ 216 ∷ 232 ∷ 248 ∷ 201 ∷ 217 ∷ 233 ∷ 249 ∷ 202 ∷ 218 ∷ 234 ∷ 250 ∷ 203
    ∷ 219 ∷ 235 ∷ 251 ∷ 12 ∷ 28 ∷ 44 ∷ 60 ∷ 13 ∷ 29 ∷ 45 ∷ 61 ∷ 14 ∷ 30 ∷ 46 ∷ 62 ∷ 15 ∷ 31 ∷ 47
    ∷ 63 ∷ 76 ∷ 92 ∷ 108 ∷ 124 ∷ 77 ∷ 93 ∷ 109 ∷ 125 ∷ 78 ∷ 94 ∷ 110 ∷ 126 ∷ 79 ∷ 95 ∷ 111 ∷ 127
    ∷ 140 ∷ 156 ∷ 172 ∷ 188 ∷ 141 ∷ 157 ∷ 173 ∷ 189 ∷ 142 ∷ 158 ∷ 174 ∷ 190 ∷ 143 ∷ 159 ∷ 175 ∷ 191
    ∷ 204 ∷ 220 ∷ 236 ∷ 252 ∷ 205 ∷ 221 ∷ 237 ∷ 253 ∷ 206 ∷ 222 ∷ 238 ∷ 254 ∷ 207 ∷ 223 ∷ 239 ∷ 255
    ∷ []
scan_idx_16 (suc (suc (suc scan_idx))) =
    0 ∷ 16 ∷ 1 ∷ 32 ∷ 17 ∷ 2 ∷ 48 ∷ 33 ∷ 18 ∷ 3 ∷ 49 ∷ 34 ∷ 19 ∷ 50 ∷ 35 ∷ 51 ∷ 64 ∷ 80 ∷ 65 ∷ 96
    ∷ 81 ∷ 66 ∷ 112 ∷ 97 ∷ 82 ∷ 67 ∷ 113 ∷ 98 ∷ 83 ∷ 114 ∷ 99 ∷ 115 ∷ 4 ∷ 20 ∷ 5 ∷ 36 ∷ 21 ∷ 6 ∷ 52
    ∷ 37 ∷ 22 ∷ 7 ∷ 53 ∷ 38 ∷ 23 ∷ 54 ∷ 39 ∷ 55 ∷ 128 ∷ 144 ∷ 129 ∷ 160 ∷ 145 ∷ 130 ∷ 176 ∷ 161
    ∷ 146 ∷ 131 ∷ 177 ∷ 162 ∷ 147 ∷ 178 ∷ 163 ∷ 179 ∷ 68 ∷ 84 ∷ 69 ∷ 100 ∷ 85 ∷ 70 ∷ 116 ∷ 101 ∷ 86
    ∷ 71 ∷ 117 ∷ 102 ∷ 87 ∷ 118 ∷ 103 ∷ 119 ∷ 8 ∷ 24 ∷ 9 ∷ 40 ∷ 25 ∷ 10 ∷ 56 ∷ 41 ∷ 26 ∷ 11 ∷ 57
    ∷ 42 ∷ 27 ∷ 58 ∷ 43 ∷ 59 ∷ 192 ∷ 208 ∷ 193 ∷ 224 ∷ 209 ∷ 194 ∷ 240 ∷ 225 ∷ 210 ∷ 195 ∷ 241 ∷ 226
    ∷ 211 ∷ 242 ∷ 227 ∷ 243 ∷ 132 ∷ 148 ∷ 133 ∷ 164 ∷ 149 ∷ 134 ∷ 180 ∷ 165 ∷ 150 ∷ 135 ∷ 181 ∷ 166
    ∷ 151 ∷ 182 ∷ 167 ∷ 183 ∷ 72 ∷ 88 ∷ 73 ∷ 104 ∷ 89 ∷ 74 ∷ 120 ∷ 105 ∷ 90 ∷ 75 ∷ 121 ∷ 106 ∷ 91
    ∷ 122 ∷ 107 ∷ 123 ∷ 12 ∷ 28 ∷ 13 ∷ 44 ∷ 29 ∷ 14 ∷ 60 ∷ 45 ∷ 30 ∷ 15 ∷ 61 ∷ 46 ∷ 31 ∷ 62 ∷ 47
    ∷ 63 ∷ 196 ∷ 212 ∷ 197 ∷ 228 ∷ 213 ∷ 198 ∷ 244 ∷ 229 ∷ 214 ∷ 199 ∷ 245 ∷ 230 ∷ 215 ∷ 246 ∷ 231
    ∷ 247 ∷ 136 ∷ 152 ∷ 137 ∷ 168 ∷ 153 ∷ 138 ∷ 184 ∷ 169 ∷ 154 ∷ 139 ∷ 185 ∷ 170 ∷ 155 ∷ 186 ∷ 171
    ∷ 187 ∷ 76 ∷ 92 ∷ 77 ∷ 108 ∷ 93 ∷ 78 ∷ 124 ∷ 109 ∷ 94 ∷ 79 ∷ 125 ∷ 110 ∷ 95 ∷ 126 ∷ 111 ∷ 127
    ∷ 200 ∷ 216 ∷ 201 ∷ 232 ∷ 217 ∷ 202 ∷ 248 ∷ 233 ∷ 218 ∷ 203 ∷ 249 ∷ 234 ∷ 219 ∷ 250 ∷ 235 ∷ 251
    ∷ 140 ∷ 156 ∷ 141 ∷ 172 ∷ 157 ∷ 142 ∷ 188 ∷ 173 ∷ 158 ∷ 143 ∷ 189 ∷ 174 ∷ 159 ∷ 190 ∷ 175 ∷ 191
    ∷ 204 ∷ 220 ∷ 205 ∷ 236 ∷ 221 ∷ 206 ∷ 252 ∷ 237 ∷ 222 ∷ 207 ∷ 253 ∷ 238 ∷ 223 ∷ 254 ∷ 239 ∷ 255
    ∷ []

unfoldable pub sig_last_scan_8x8 : ℕ → List ℕ
sig_last_scan_8x8 zero = 0 ∷ 1 ∷ 2 ∷ 3 ∷ []
sig_last_scan_8x8 (suc zero) = 0 ∷ 1 ∷ 2 ∷ 3 ∷ []
sig_last_scan_8x8 (suc (suc zero)) = 0 ∷ 2 ∷ 1 ∷ 3 ∷ []
sig_last_scan_8x8 (suc (suc (suc scan_idx))) = 0 ∷ 2 ∷ 1 ∷ 3 ∷ []

unfoldable pub sig_last_scan_cg_32x32 : List ℕ
sig_last_scan_cg_32x32 =
    0 ∷ 8 ∷ 1 ∷ 16 ∷ 9 ∷ 2 ∷ 24 ∷ 17 ∷ 10 ∷ 3 ∷ 32 ∷ 25 ∷ 18 ∷ 11 ∷ 4 ∷ 40 ∷ 33 ∷ 26 ∷ 19 ∷ 12 ∷ 5
    ∷ 48 ∷ 41 ∷ 34 ∷ 27 ∷ 20 ∷ 13 ∷ 6 ∷ 56 ∷ 49 ∷ 42 ∷ 35 ∷ 28 ∷ 21 ∷ 14 ∷ 7 ∷ 57 ∷ 50 ∷ 43 ∷ 36
    ∷ 29 ∷ 22 ∷ 15 ∷ 58 ∷ 51 ∷ 44 ∷ 37 ∷ 30 ∷ 23 ∷ 59 ∷ 52 ∷ 45 ∷ 38 ∷ 31 ∷ 60 ∷ 53 ∷ 46 ∷ 39 ∷ 61
    ∷ 54 ∷ 47 ∷ 62 ∷ 55 ∷ 63 ∷ []
