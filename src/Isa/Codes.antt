-- ===== src/Isa/Codes.antt =====
-- The numeric codes of `common/i386.h`; `zero_flag` is its `ZERO`.
use topgun.Common.{ℕ}

-- The 8-bit registers.
abbrev pub al : ℕ
al = 0

abbrev pub cl : ℕ
cl = 1

abbrev pub dl : ℕ
dl = 2

abbrev pub bl : ℕ
bl = 3

abbrev pub ah : ℕ
ah = 4

abbrev pub ch : ℕ
ch = 5

abbrev pub dh : ℕ
dh = 6

abbrev pub bh : ℕ
bh = 7

-- The 32-bit registers.
abbrev pub r_eax : ℕ
r_eax = 0

abbrev pub r_ecx : ℕ
r_ecx = 1

abbrev pub r_edx : ℕ
r_edx = 2

abbrev pub r_ebx : ℕ
r_ebx = 3

abbrev pub r_esp : ℕ
r_esp = 4

abbrev pub r_ebp : ℕ
r_ebp = 5

abbrev pub r_esi : ℕ
r_esi = 6

abbrev pub r_edi : ℕ
r_edi = 7

-- The segment registers.
abbrev pub es : ℕ
es = 0

abbrev pub cs : ℕ
cs = 1

abbrev pub ss : ℕ
ss = 2

abbrev pub ds : ℕ
ds = 3

abbrev pub fs : ℕ
fs = 4

abbrev pub gs : ℕ
gs = 5

-- The operations of `ALU`.
abbrev pub alu_add : ℕ
alu_add = 0

abbrev pub alu_or : ℕ
alu_or = 1

abbrev pub alu_adc : ℕ
alu_adc = 2

abbrev pub alu_sbb : ℕ
alu_sbb = 3

abbrev pub alu_and : ℕ
alu_and = 4

abbrev pub alu_sub : ℕ
alu_sub = 5

abbrev pub alu_xor : ℕ
alu_xor = 6

abbrev pub alu_cmp : ℕ
alu_cmp = 7

abbrev pub alu_multi : ℕ
alu_multi = 8

-- The operations of `ALU_SPECIAL`.
abbrev pub alu_test : ℕ
alu_test = 0

abbrev pub alu_unk : ℕ
alu_unk = 1

abbrev pub alu_not : ℕ
alu_not = 2

abbrev pub alu_neg : ℕ
alu_neg = 3

abbrev pub alu_mul : ℕ
alu_mul = 4

abbrev pub alu_imul : ℕ
alu_imul = 5

abbrev pub alu_div : ℕ
alu_div = 6

abbrev pub alu_idiv : ℕ
alu_idiv = 7

-- `INCDEC`.
abbrev pub id_inc : ℕ
id_inc = 0

abbrev pub id_dec : ℕ
id_dec = 1

-- The string operations.
abbrev pub movs : ℕ
movs = 0

abbrev pub scas : ℕ
scas = 1

abbrev pub stos : ℕ
stos = 2

abbrev pub ins : ℕ
ins = 3

abbrev pub outs : ℕ
outs = 4

abbrev pub lods : ℕ
lods = 5

abbrev pub cmps : ℕ
cmps = 6

-- The jump conditions.
abbrev pub jo : ℕ
jo = 0

abbrev pub jno : ℕ
jno = 1

abbrev pub jb : ℕ
jb = 2

abbrev pub jae : ℕ
jae = 3

abbrev pub je : ℕ
je = 4

abbrev pub jne : ℕ
jne = 5

abbrev pub jbe : ℕ
jbe = 6

abbrev pub ja : ℕ
ja = 7

abbrev pub js : ℕ
js = 8

abbrev pub jns : ℕ
jns = 9

abbrev pub jp : ℕ
jp = 10

abbrev pub jnp : ℕ
jnp = 11

abbrev pub jl : ℕ
jl = 12

abbrev pub jge : ℕ
jge = 13

abbrev pub jle : ℕ
jle = 14

abbrev pub jg : ℕ
jg = 15

abbrev pub always : ℕ
always = 16

abbrev pub jcxz : ℕ
jcxz = 17

-- The kinds of `LOOP`.
abbrev pub loop_normal : ℕ
loop_normal = 0

abbrev pub loope : ℕ
loope = 1

abbrev pub loopne : ℕ
loopne = 2

-- The shifts.
abbrev pub rol : ℕ
rol = 0

abbrev pub ror : ℕ
ror = 1

abbrev pub rcl : ℕ
rcl = 2

abbrev pub rcr : ℕ
rcr = 3

abbrev pub shl : ℕ
shl = 4

abbrev pub shr : ℕ
shr = 5

abbrev pub sar : ℕ
sar = 7

-- The flags of `eflags`.
abbrev pub carry : ℕ
carry = 0

abbrev pub parity : ℕ
parity = 2

abbrev pub ac : ℕ
ac = 4

abbrev pub zero_flag : ℕ
zero_flag = 6

abbrev pub sign : ℕ
sign = 7

abbrev pub trap : ℕ
trap = 8

abbrev pub interrupt : ℕ
interrupt = 9

abbrev pub direction : ℕ
direction = 10

abbrev pub overflow : ℕ
overflow = 11
