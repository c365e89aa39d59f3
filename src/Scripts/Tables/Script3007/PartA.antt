-- ===== src/Scripts/Tables/Script3007/PartA.antt =====
-- The functions 0 to 149 of sample-assets-small/script-0007.js, a row for each line.
use cache_server_go.Base.{List, [], ◌∷◌}
use cache_server_go.Scripts.Fn.{Fn, ◌x+◌, ◌x-◌}

unfoldable pub fns_3007_a : List Fn
fns_3007_a =
    668498 x- 4
    ∷ 515396 x+ 24
    ∷ 434866 x- 77
    ∷ 362274 x+ 19
    ∷ 304455 x+ 94
    ∷ 319895 x- 93
    ∷ 195033 x+ 84
    ∷ 359702 x+ 19
    ∷ 142105 x+ 7
    ∷ 733294 x+ 100
    ∷ 620975 x- 87
    ∷ 784986 x+ 81
    ∷ 851758 x+ 37
    ∷ 137200 x+ 16
    ∷ 69046 x- 72
    ∷ 536114 x+ 77
    ∷ 27295 x+ 29
    ∷ 597847 x+ 93
    ∷ 136989 x- 84
    ∷ 518321 x- 84
    ∷ 935784 x- 59
    ∷ 737563 x- 6
    ∷ 827722 x- 39
    ∷ 45914 x- 20
    ∷ 401860 x- 34
    ∷ 325393 x- 52
    ∷ 92339 x+ 45
    ∷ 216383 x- 16
    ∷ 423677 x- 69
    ∷ 673255 x- 4
    ∷ 714402 x+ 25
    ∷ 44519 x+ 29
    ∷ 165999 x+ 78
    ∷ 200863 x- 42
    ∷ 598088 x+ 68
    ∷ 430507 x+ 100
    ∷ 929308 x- 47
    ∷ 814921 x- 55
    ∷ 34064 x- 32
    ∷ 419012 x- 6
    ∷ 858202 x- 31
    ∷ 495733 x+ 87
    ∷ 690090 x- 68
    ∷ 503191 x+ 54
    ∷ 697959 x+ 18
    ∷ 319636 x+ 22
    ∷ 308668 x- 26
    ∷ 758197 x- 31
    ∷ 594719 x- 73
    ∷ 107309 x- 28
    ∷ 245213 x- 18
    ∷ 766283 x+ 30
    ∷ 305785 x- 12
    ∷ 33082 x+ 80
    ∷ 361742 x- 99
    ∷ 705997 x- 45
    ∷ 780550 x- 100
    ∷ 952471 x- 34
    ∷ 413463 x+ 50
    ∷ 698596 x+ 84
    ∷ 76750 x- 37
    ∷ 902786 x+ 4
    ∷ 149271 x- 77
    ∷ 460680 x+ 32
    ∷ 378640 x- 32
    ∷ 125683 x+ 86
    ∷ 864776 x- 92
    ∷ 204788 x+ 17
    ∷ 954143 x+ 100
    ∷ 736260 x+ 44
    ∷ 601243 x- 47
    ∷ 543456 x+ 18
    ∷ 632181 x+ 4
    ∷ 895305 x- 22
    ∷ 665794 x+ 65
    ∷ 339820 x- 7
    ∷ 502394 x+ 34
    ∷ 720326 x- 6
    ∷ 807470 x+ 14
    ∷ 811623 x+ 18
    ∷ 13659 x+ 66
    ∷ 558989 x- 86
    ∷ 685482 x- 22
    ∷ 147435 x- 3
    ∷ 51803 x- 16
    ∷ 635615 x- 38
    ∷ 267919 x- 33
    ∷ 802656 x- 32
    ∷ 929005 x+ 80
    ∷ 887262 x+ 0
    ∷ 769145 x- 67
    ∷ 122216 x+ 91
    ∷ 717714 x- 49
    ∷ 350207 x- 6
    ∷ 830074 x+ 23
    ∷ 8483 x- 77
    ∷ 746215 x- 13
    ∷ 68975 x+ 13
    ∷ 762840 x- 25
    ∷ 821050 x+ 81
    ∷ 654426 x+ 67
    ∷ 277163 x- 80
    ∷ 555413 x- 84
    ∷ 97272 x+ 36
    ∷ 269049 x+ 94
    ∷ 555326 x- 97
    ∷ 395473 x+ 73
    ∷ 675150 x- 21
    ∷ 617172 x- 59
    ∷ 842784 x- 41
    ∷ 660760 x+ 26
    ∷ 960443 x- 50
    ∷ 120149 x- 58
    ∷ 770757 x+ 93
    ∷ 602692 x+ 31
    ∷ 860103 x+ 31
    ∷ 848193 x+ 77
    ∷ 734762 x+ 70
    ∷ 829798 x+ 5
    ∷ 921394 x+ 48
    ∷ 78123 x- 17
    ∷ 158160 x+ 54
    ∷ 915306 x- 97
    ∷ 26191 x- 20
    ∷ 669952 x+ 64
    ∷ 428479 x- 37
    ∷ 857458 x+ 15
    ∷ 789640 x+ 11
    ∷ 59259 x- 68
    ∷ 837952 x+ 69
    ∷ 91979 x- 20
    ∷ 562001 x+ 54
    ∷ 148040 x- 44
    ∷ 965617 x- 88
    ∷ 480050 x+ 46
    ∷ 95780 x- 70
    ∷ 894454 x+ 28
    ∷ 13992 x+ 90
    ∷ 300351 x+ 33
    ∷ 83070 x- 32
    ∷ 832167 x- 63
    ∷ 696168 x- 22
    ∷ 701585 x- 3
    ∷ 646813 x+ 18
    ∷ 178445 x+ 17
    ∷ 190024 x+ 49
    ∷ 448373 x- 74
    ∷ 192197 x- 36
    ∷ 847136 x- 99
    ∷ 451547 x+ 10
    ∷ []
