-- ===== src/Cabac/Scan/Largest.antt =====
-- The scans of a block of 32 rows in src/Cabac.cpp, g_puiScanIdx32.
use ces.Prelude.{ℕ, zero, suc, List, [], ◌∷◌}

unfoldable pub scan_idx_32 : ℕ → List ℕ
scan_idx_32 zero =
    0 ∷ 1 ∷ 32 ∷ 64 ∷ 33 ∷ 2 ∷ 3 ∷ 34 ∷ 65 ∷ 96 ∷ 128 ∷ 97 ∷ 66 ∷ 35 ∷ 4 ∷ 5 ∷ 36 ∷ 67 ∷ 98 ∷ 129
    ∷ 160 ∷ 192 ∷ 161 ∷ 130 ∷ 99 ∷ 68 ∷ 37 ∷ 6 ∷ 7 ∷ 38 ∷ 69 ∷ 100 ∷ 131 ∷ 162 ∷ 193 ∷ 224 ∷ 256
    ∷ 225 ∷ 194 ∷ 163 ∷ 132 ∷ 101 ∷ 70 ∷ 39 ∷ 8 ∷ 9 ∷ 40 ∷ 71 ∷ 102 ∷ 133 ∷ 164 ∷ 195 ∷ 226 ∷ 257
    ∷ 288 ∷ 320 ∷ 289 ∷ 258 ∷ 227 ∷ 196 ∷ 165 ∷ 134 ∷ 103 ∷ 72 ∷ 41 ∷ 10 ∷ 11 ∷ 42 ∷ 73 ∷ 104 ∷ 135
    ∷ 166 ∷ 197 ∷ 228 ∷ 259 ∷ 290 ∷ 321 ∷ 352 ∷ 384 ∷ 353 ∷ 322 ∷ 291 ∷ 260 ∷ 229 ∷ 198 ∷ 167 ∷ 136
    ∷ 105 ∷ 74 ∷ 43 ∷ 12 ∷ 13 ∷ 44 ∷ 75 ∷ 106 ∷ 137 ∷ 168 ∷ 199 ∷ 230 ∷ 261 ∷ 292 ∷ 323 ∷ 354 ∷ 385
    ∷ 416 ∷ 448 ∷ 417 ∷ 386 ∷ 355 ∷ 324 ∷ 293 ∷ 262 ∷ 231 ∷ 200 ∷ 169 ∷ 138 ∷ 107 ∷ 76 ∷ 45 ∷ 14
    ∷ 15 ∷ 46 ∷ 77 ∷ 108 ∷ 139 ∷ 170 ∷ 201 ∷ 232 ∷ 263 ∷ 294 ∷ 325 ∷ 356 ∷ 387 ∷ 418 ∷ 449 ∷ 480
    ∷ 512 ∷ 481 ∷ 450 ∷ 419 ∷ 388 ∷ 357 ∷ 326 ∷ 295 ∷ 264 ∷ 233 ∷ 202 ∷ 171 ∷ 140 ∷ 109 ∷ 78 ∷ 47
    ∷ 16 ∷ 17 ∷ 48 ∷ 79 ∷ 110 ∷ 141 ∷ 172 ∷ 203 ∷ 234 ∷ 265 ∷ 296 ∷ 327 ∷ 358 ∷ 389 ∷ 420 ∷ 451
    ∷ 482 ∷ 513 ∷ 544 ∷ 576 ∷ 545 ∷ 514 ∷ 483 ∷ 452 ∷ 421 ∷ 390 ∷ 359 ∷ 328 ∷ 297 ∷ 266 ∷ 235 ∷ 204
    ∷ 173 ∷ 142 ∷ 111 ∷ 80 ∷ 49 ∷ 18 ∷ 19 ∷ 50 ∷ 81 ∷ 112 ∷ 143 ∷ 174 ∷ 205 ∷ 236 ∷ 267 ∷ 298 ∷ 329
    ∷ 360 ∷ 391 ∷ 422 ∷ 453 ∷ 484 ∷ 515 ∷ 546 ∷ 577 ∷ 608 ∷ 640 ∷ 609 ∷ 578 ∷ 547 ∷ 516 ∷ 485 ∷ 454
    ∷ 423 ∷ 392 ∷ 361 ∷ 330 ∷ 299 ∷ 268 ∷ 237 ∷ 206 ∷ 175 ∷ 144 ∷ 113 ∷ 82 ∷ 51 ∷ 20 ∷ 21 ∷ 52 ∷ 83
    ∷ 114 ∷ 145 ∷ 176 ∷ 207 ∷ 238 ∷ 269 ∷ 300 ∷ 331 ∷ 362 ∷ 393 ∷ 424 ∷ 455 ∷ 486 ∷ 517 ∷ 548 ∷ 579
    ∷ 610 ∷ 641 ∷ 672 ∷ 704 ∷ 673 ∷ 642 ∷ 611 ∷ 580 ∷ 549 ∷ 518 ∷ 487 ∷ 456 ∷ 425 ∷ 394 ∷ 363 ∷ 332
    ∷ 301 ∷ 270 ∷ 239 ∷ 208 ∷ 177 ∷ 146 ∷ 115 ∷ 84 ∷ 53 ∷ 22 ∷ 23 ∷ 54 ∷ 85 ∷ 116 ∷ 147 ∷ 178 ∷ 209
    ∷ 240 ∷ 271 ∷ 302 ∷ 333 ∷ 364 ∷ 395 ∷ 426 ∷ 457 ∷ 488 ∷ 519 ∷ 550 ∷ 581 ∷ 612 ∷ 643 ∷ 674 ∷ 705
    ∷ 736 ∷ 768 ∷ 737 ∷ 706 ∷ 675 ∷ 644 ∷ 613 ∷ 582 ∷ 551 ∷ 520 ∷ 489 ∷ 458 ∷ 427 ∷ 396 ∷ 365 ∷ 334
    ∷ 303 ∷ 272 ∷ 241 ∷ 210 ∷ 179 ∷ 148 ∷ 117 ∷ 86 ∷ 55 ∷ 24 ∷ 25 ∷ 56 ∷ 87 ∷ 118 ∷ 149 ∷ 180 ∷ 211
    ∷ 242 ∷ 273 ∷ 304 ∷ 335 ∷ 366 ∷ 397 ∷ 428 ∷ 459 ∷ 490 ∷ 521 ∷ 552 ∷ 583 ∷ 614 ∷ 645 ∷ 676 ∷ 707
    ∷ 738 ∷ 769 ∷ 800 ∷ 832 ∷ 801 ∷ 770 ∷ 739 ∷ 708 ∷ 677 ∷ 646 ∷ 615 ∷ 584 ∷ 553 ∷ 522 ∷ 491 ∷ 460
    ∷ 429 ∷ 398 ∷ 367 ∷ 336 ∷ 305 ∷ 274 ∷ 243 ∷ 212 ∷ 181 ∷ 150 ∷ 119 ∷ 88 ∷ 57 ∷ 26 ∷ 27 ∷ 58 ∷ 89
    ∷ 120 ∷ 151 ∷ 182 ∷ 213 ∷ 244 ∷ 275 ∷ 306 ∷ 337 ∷ 368 ∷ 399 ∷ 430 ∷ 461 ∷ 492 ∷ 523 ∷ 554 ∷ 585
    ∷ 616 ∷ 647 ∷ 678 ∷ 709 ∷ 740 ∷ 771 ∷ 802 ∷ 833 ∷ 864 ∷ 896 ∷ 865 ∷ 834 ∷ 803 ∷ 772 ∷ 741 ∷ 710
    ∷ 679 ∷ 648 ∷ 617 ∷ 586 ∷ 555 ∷ 524 ∷ 493 ∷ 462 ∷ 431 ∷ 400 ∷ 369 ∷ 338 ∷ 307 ∷ 276 ∷ 245 ∷ 214
    ∷ 183 ∷ 152 ∷ 121 ∷ 90 ∷ 59 ∷ 28 ∷ 29 ∷ 60 ∷ 91 ∷ 122 ∷ 153 ∷ 184 ∷ 215 ∷ 246 ∷ 277 ∷ 308 ∷ 339
    ∷ 370 ∷ 401 ∷ 432 ∷ 463 ∷ 494 ∷ 525 ∷ 556 ∷ 587 ∷ 618 ∷ 649 ∷ 680 ∷ 711 ∷ 742 ∷ 773 ∷ 804 ∷ 835
    ∷ 866 ∷ 897 ∷ 928 ∷ 960 ∷ 929 ∷ 898 ∷ 867 ∷ 836 ∷ 805 ∷ 774 ∷ 743 ∷ 712 ∷ 681 ∷ 650 ∷ 619 ∷ 588
    ∷ 557 ∷ 526 ∷ 495 ∷ 464 ∷ 433 ∷ 402 ∷ 371 ∷ 340 ∷ 309 ∷ 278 ∷ 247 ∷ 216 ∷ 185 ∷ 154 ∷ 123 ∷ 92
    ∷ 61 ∷ 30 ∷ 31 ∷ 62 ∷ 93 ∷ 124 ∷ 155 ∷ 186 ∷ 217 ∷ 248 ∷ 279 ∷ 310 ∷ 341 ∷ 372 ∷ 403 ∷ 434 ∷ 465
    ∷ 496 ∷ 527 ∷ 558 ∷ 589 ∷ 620 ∷ 651 ∷ 682 ∷ 713 ∷ 744 ∷ 775 ∷ 806 ∷ 837 ∷ 868 ∷ 899 ∷ 930 ∷ 961
    ∷ 992 ∷ 993 ∷ 962 ∷ 931 ∷ 900 ∷ 869 ∷ 838 ∷ 807 ∷ 776 ∷ 745 ∷ 714 ∷ 683 ∷ 652 ∷ 621 ∷ 590 ∷ 559
    ∷ 528 ∷ 497 ∷ 466 ∷ 435 ∷ 404 ∷ 373 ∷ 342 ∷ 311 ∷ 280 ∷ 249 ∷ 218 ∷ 187 ∷ 156 ∷ 125 ∷ 94 ∷ 63
    ∷ 95 ∷ 126 ∷ 157 ∷ 188 ∷ 219 ∷ 250 ∷ 281 ∷ 312 ∷ 343 ∷ 374 ∷ 405 ∷ 436 ∷ 467 ∷ 498 ∷ 529 ∷ 560
    ∷ 591 ∷ 622 ∷ 653 ∷ 684 ∷ 715 ∷ 746 ∷ 777 ∷ 808 ∷ 839 ∷ 870 ∷ 901 ∷ 932 ∷ 963 ∷ 994 ∷ 995 ∷ 964
    ∷ 933 ∷ 902 ∷ 871 ∷ 840 ∷ 809 ∷ 778 ∷ 747 ∷ 716 ∷ 685 ∷ 654 ∷ 623 ∷ 592 ∷ 561 ∷ 530 ∷ 499 ∷ 468
    ∷ 437 ∷ 406 ∷ 375 ∷ 344 ∷ 313 ∷ 282 ∷ 251 ∷ 220 ∷ 189 ∷ 158 ∷ 127 ∷ 159 ∷ 190 ∷ 221 ∷ 252 ∷ 283
    ∷ 314 ∷ 345 ∷ 376 ∷ 407 ∷ 438 ∷ 469 ∷ 500 ∷ 531 ∷ 562 ∷ 593 ∷ 624 ∷ 655 ∷ 686 ∷ 717 ∷ 748 ∷ 779
    ∷ 810 ∷ 841 ∷ 872 ∷ 903 ∷ 934 ∷ 965 ∷ 996 ∷ 997 ∷ 966 ∷ 935 ∷ 904 ∷ 873 ∷ 842 ∷ 811 ∷ 780 ∷ 749
    ∷ 718 ∷ 687 ∷ 656 ∷ 625 ∷ 594 ∷ 563 ∷ 532 ∷ 501 ∷ 470 ∷ 439 ∷ 408 ∷ 377 ∷ 346 ∷ 315 ∷ 284 ∷ 253
    ∷ 222 ∷ 191 ∷ 223 ∷ 254 ∷ 285 ∷ 316 ∷ 347 ∷ 378 ∷ 409 ∷ 440 ∷ 471 ∷ 502 ∷ 533 ∷ 564 ∷ 595 ∷ 626
    ∷ 657 ∷ 688 ∷ 719 ∷ 750 ∷ 781 ∷ 812 ∷ 843 ∷ 874 ∷ 905 ∷ 936 ∷ 967 ∷ 998 ∷ 999 ∷ 968 ∷ 937 ∷ 906
    ∷ 875 ∷ 844 ∷ 813 ∷ 782 ∷ 751 ∷ 720 ∷ 689 ∷ 658 ∷ 627 ∷ 596 ∷ 565 ∷ 534 ∷ 503 ∷ 472 ∷ 441 ∷ 410
    ∷ 379 ∷ 348 ∷ 317 ∷ 286 ∷ 255 ∷ 287 ∷ 318 ∷ 349 ∷ 380 ∷ 411 ∷ 442 ∷ 473 ∷ 504 ∷ 535 ∷ 566 ∷ 597
    ∷ 628 ∷ 659 ∷ 690 ∷ 721 ∷ 752 ∷ 783 ∷ 814 ∷ 845 ∷ 876 ∷ 907 ∷ 938 ∷ 969 ∷ 1000 ∷ 1001 ∷ 970
    ∷ 939 ∷ 908 ∷ 877 ∷ 846 ∷ 815 ∷ 784 ∷ 753 ∷ 722 ∷ 691 ∷ 660 ∷ 629 ∷ 598 ∷ 567 ∷ 536 ∷ 505 ∷ 474
    ∷ 443 ∷ 412 ∷ 381 ∷ 350 ∷ 319 ∷ 351 ∷ 382 ∷ 413 ∷ 444 ∷ 475 ∷ 506 ∷ 537 ∷ 568 ∷ 599 ∷ 630 ∷ 661
    ∷ 692 ∷ 723 ∷ 754 ∷ 785 ∷ 816 ∷ 847 ∷ 878 ∷ 909 ∷ 940 ∷ 971 ∷ 1002 ∷ 1003 ∷ 972 ∷ 941 ∷ 910
    ∷ 879 ∷ 848 ∷ 817 ∷ 786 ∷ 755 ∷ 724 ∷ 693 ∷ 662 ∷ 631 ∷ 600 ∷ 569 ∷ 538 ∷ 507 ∷ 476 ∷ 445 ∷ 414
    ∷ 383 ∷ 415 ∷ 446 ∷ 477 ∷ 508 ∷ 539 ∷ 570 ∷ 601 ∷ 632 ∷ 663 ∷ 694 ∷ 725 ∷ 756 ∷ 787 ∷ 818 ∷ 849
    ∷ 880 ∷ 911 ∷ 942 ∷ 973 ∷ 1004 ∷ 1005 ∷ 974 ∷ 943 ∷ 912 ∷ 881 ∷ 850 ∷ 819 ∷ 788 ∷ 757 ∷ 726
    ∷ 695 ∷ 664 ∷ 633 ∷ 602 ∷ 571 ∷ 540 ∷ 509 ∷ 478 ∷ 447 ∷ 479 ∷ 510 ∷ 541 ∷ 572 ∷ 603 ∷ 634 ∷ 665
    ∷ 696 ∷ 727 ∷ 758 ∷ 789 ∷ 820 ∷ 851 ∷ 882 ∷ 913 ∷ 944 ∷ 975 ∷ 1006 ∷ 1007 ∷ 976 ∷ 945 ∷ 914
    ∷ 883 ∷ 852 ∷ 821 ∷ 790 ∷ 759 ∷ 728 ∷ 697 ∷ 666 ∷ 635 ∷ 604 ∷ 573 ∷ 542 ∷ 511 ∷ 543 ∷ 574 ∷ 605
    ∷ 636 ∷ 667 ∷ 698 ∷ 729 ∷ 760 ∷ 791 ∷ 822 ∷ 853 ∷ 884 ∷ 915 ∷ 946 ∷ 977 ∷ 1008 ∷ 1009 ∷ 978
    ∷ 947 ∷ 916 ∷ 885 ∷ 854 ∷ 823 ∷ 792 ∷ 761 ∷ 730 ∷ 699 ∷ 668 ∷ 637 ∷ 606 ∷ 575 ∷ 607 ∷ 638 ∷ 669
    ∷ 700 ∷ 731 ∷ 762 ∷ 793 ∷ 824 ∷ 855 ∷ 886 ∷ 917 ∷ 948 ∷ 979 ∷ 1010 ∷ 1011 ∷ 980 ∷ 949 ∷ 918
    ∷ 887 ∷ 856 ∷ 825 ∷ 794 ∷ 763 ∷ 732 ∷ 701 ∷ 670 ∷ 639 ∷ 671 ∷ 702 ∷ 733 ∷ 764 ∷ 795 ∷ 826 ∷ 857
    ∷ 888 ∷ 919 ∷ 950 ∷ 981 ∷ 1012 ∷ 1013 ∷ 982 ∷ 951 ∷ 920 ∷ 889 ∷ 858 ∷ 827 ∷ 796 ∷ 765 ∷ 734
    ∷ 703 ∷ 735 ∷ 766 ∷ 797 ∷ 828 ∷ 859 ∷ 890 ∷ 921 ∷ 952 ∷ 983 ∷ 1014 ∷ 1015 ∷ 984 ∷ 953 ∷ 922
    ∷ 891 ∷ 860 ∷ 829 ∷ 798 ∷ 767 ∷ 799 ∷ 830 ∷ 861 ∷ 892 ∷ 923 ∷ 954 ∷ 985 ∷ 1016 ∷ 1017 ∷ 986
    ∷ 955 ∷ 924 ∷ 893 ∷ 862 ∷ 831 ∷ 863 ∷ 894 ∷ 925 ∷ 956 ∷ 987 ∷ 1018 ∷ 1019 ∷ 988 ∷ 957 ∷ 926
    ∷ 895 ∷ 927 ∷ 958 ∷ 989 ∷ 1020 ∷ 1021 ∷ 990 ∷ 959 ∷ 991 ∷ 1022 ∷ 1023 ∷ []
scan_idx_32 (suc zero) =
    0 ∷ 1 ∷ 2 ∷ 3 ∷ 32 ∷ 33 ∷ 34 ∷ 35 ∷ 64 ∷ 65 ∷ 66 ∷ 67 ∷ 96 ∷ 97 ∷ 98 ∷ 99 ∷ 4 ∷ 5 ∷ 6 ∷ 7 ∷ 36
    ∷ 37 ∷ 38 ∷ 39 ∷ 68 ∷ 69 ∷ 70 ∷ 71 ∷ 100 ∷ 101 ∷ 102 ∷ 103 ∷ 8 ∷ 9 ∷ 10 ∷ 11 ∷ 40 ∷ 41 ∷ 42 ∷ 43
    ∷ 72 ∷ 73 ∷ 74 ∷ 75 ∷ 104 ∷ 105 ∷ 106 ∷ 107 ∷ 12 ∷ 13 ∷ 14 ∷ 15 ∷ 44 ∷ 45 ∷ 46 ∷ 47 ∷ 76 ∷ 77
    ∷ 78 ∷ 79 ∷ 108 ∷ 109 ∷ 110 ∷ 111 ∷ 16 ∷ 17 ∷ 18 ∷ 19 ∷ 48 ∷ 49 ∷ 50 ∷ 51 ∷ 80 ∷ 81 ∷ 82 ∷ 83
    ∷ 112 ∷ 113 ∷ 114 ∷ 115 ∷ 20 ∷ 21 ∷ 22 ∷ 23 ∷ 52 ∷ 53 ∷ 54 ∷ 55 ∷ 84 ∷ 85 ∷ 86 ∷ 87 ∷ 116 ∷ 117
    ∷ 118 ∷ 119 ∷ 24 ∷ 25 ∷ 26 ∷ 27 ∷ 56 ∷ 57 ∷ 58 ∷ 59 ∷ 88 ∷ 89 ∷ 90 ∷ 91 ∷ 120 ∷ 121 ∷ 122 ∷ 123
    ∷ 28 ∷ 29 ∷ 30 ∷ 31 ∷ 60 ∷ 61 ∷ 62 ∷ 63 ∷ 92 ∷ 93 ∷ 94 ∷ 95 ∷ 124 ∷ 125 ∷ 126 ∷ 127 ∷ 128 ∷ 129
    ∷ 130 ∷ 131 ∷ 160 ∷ 161 ∷ 162 ∷ 163 ∷ 192 ∷ 193 ∷ 194 ∷ 195 ∷ 224 ∷ 225 ∷ 226 ∷ 227 ∷ 132 ∷ 133
    ∷ 134 ∷ 135 ∷ 164 ∷ 165 ∷ 166 ∷ 167 ∷ 196 ∷ 197 ∷ 198 ∷ 199 ∷ 228 ∷ 229 ∷ 230 ∷ 231 ∷ 136 ∷ 137
    ∷ 138 ∷ 139 ∷ 168 ∷ 169 ∷ 170 ∷ 171 ∷ 200 ∷ 201 ∷ 202 ∷ 203 ∷ 232 ∷ 233 ∷ 234 ∷ 235 ∷ 140 ∷ 141
    ∷ 142 ∷ 143 ∷ 172 ∷ 173 ∷ 174 ∷ 175 ∷ 204 ∷ 205 ∷ 206 ∷ 207 ∷ 236 ∷ 237 ∷ 238 ∷ 239 ∷ 144 ∷ 145
    ∷ 146 ∷ 147 ∷ 176 ∷ 177 ∷ 178 ∷ 179 ∷ 208 ∷ 209 ∷ 210 ∷ 211 ∷ 240 ∷ 241 ∷ 242 ∷ 243 ∷ 148 ∷ 149
    ∷ 150 ∷ 151 ∷ 180 ∷ 181 ∷ 182 ∷ 183 ∷ 212 ∷ 213 ∷ 214 ∷ 215 ∷ 244 ∷ 245 ∷ 246 ∷ 247 ∷ 152 ∷ 153
    ∷ 154 ∷ 155 ∷ 184 ∷ 185 ∷ 186 ∷ 187 ∷ 216 ∷ 217 ∷ 218 ∷ 219 ∷ 248 ∷ 249 ∷ 250 ∷ 251 ∷ 156 ∷ 157
    ∷ 158 ∷ 159 ∷ 188 ∷ 189 ∷ 190 ∷ 191 ∷ 220 ∷ 221 ∷ 222 ∷ 223 ∷ 252 ∷ 253 ∷ 254 ∷ 255 ∷ 256 ∷ 257
    ∷ 258 ∷ 259 ∷ 288 ∷ 289 ∷ 290 ∷ 291 ∷ 320 ∷ 321 ∷ 322 ∷ 323 ∷ 352 ∷ 353 ∷ 354 ∷ 355 ∷ 260 ∷ 261
    ∷ 262 ∷ 263 ∷ 292 ∷ 293 ∷ 294 ∷ 295 ∷ 324 ∷ 325 ∷ 326 ∷ 327 ∷ 356 ∷ 357 ∷ 358 ∷ 359 ∷ 264 ∷ 265
    ∷ 266 ∷ 267 ∷ 296 ∷ 297 ∷ 298 ∷ 299 ∷ 328 ∷ 329 ∷ 330 ∷ 331 ∷ 360 ∷ 361 ∷ 362 ∷ 363 ∷ 268 ∷ 269
    ∷ 270 ∷ 271 ∷ 300 ∷ 301 ∷ 302 ∷ 303 ∷ 332 ∷ 333 ∷ 334 ∷ 335 ∷ 364 ∷ 365 ∷ 366 ∷ 367 ∷ 272 ∷ 273
    ∷ 274 ∷ 275 ∷ 304 ∷ 305 ∷ 306 ∷ 307 ∷ 336 ∷ 337 ∷ 338 ∷ 339 ∷ 368 ∷ 369 ∷ 370 ∷ 371 ∷ 276 ∷ 277
    ∷ 278 ∷ 279 ∷ 308 ∷ 309 ∷ 310 ∷ 311 ∷ 340 ∷ 341 ∷ 342 ∷ 343 ∷ 372 ∷ 373 ∷ 374 ∷ 375 ∷ 280 ∷ 281
    ∷ 282 ∷ 283 ∷ 312 ∷ 313 ∷ 314 ∷ 315 ∷ 344 ∷ 345 ∷ 346 ∷ 347 ∷ 376 ∷ 377 ∷ 378 ∷ 379 ∷ 284 ∷ 285
    ∷ 286 ∷ 287 ∷ 316 ∷ 317 ∷ 318 ∷ 319 ∷ 348 ∷ 349 ∷ 350 ∷ 351 ∷ 380 ∷ 381 ∷ 382 ∷ 383 ∷ 384 ∷ 385
    ∷ 386 ∷ 387 ∷ 416 ∷ 417 ∷ 418 ∷ 419 ∷ 448 ∷ 449 ∷ 450 ∷ 451 ∷ 480 ∷ 481 ∷ 482 ∷ 483 ∷ 388 ∷ 389
    ∷ 390 ∷ 391 ∷ 420 ∷ 421 ∷ 422 ∷ 423 ∷ 452 ∷ 453 ∷ 454 ∷ 455 ∷ 484 ∷ 485 ∷ 486 ∷ 487 ∷ 392 ∷ 393
    ∷ 394 ∷ 395 ∷ 424 ∷ 425 ∷ 426 ∷ 427 ∷ 456 ∷ 457 ∷ 458 ∷ 459 ∷ 488 ∷ 489 ∷ 490 ∷ 491 ∷ 396 ∷ 397
    ∷ 398 ∷ 399 ∷ 428 ∷ 429 ∷ 430 ∷ 431 ∷ 460 ∷ 461 ∷ 462 ∷ 463 ∷ 492 ∷ 493 ∷ 494 ∷ 495 ∷ 400 ∷ 401
    ∷ 402 ∷ 403 ∷ 432 ∷ 433 ∷ 434 ∷ 435 ∷ 464 ∷ 465 ∷ 466 ∷ 467 ∷ 496 ∷ 497 ∷ 498 ∷ 499 ∷ 404 ∷ 405
    ∷ 406 ∷ 407 ∷ 436 ∷ 437 ∷ 438 ∷ 439 ∷ 468 ∷ 469 ∷ 470 ∷ 471 ∷ 500 ∷ 501 ∷ 502 ∷ 503 ∷ 408 ∷ 409
    ∷ 410 ∷ 411 ∷ 440 ∷ 441 ∷ 442 ∷ 443 ∷ 472 ∷ 473 ∷ 474 ∷ 475 ∷ 504 ∷ 505 ∷ 506 ∷ 507 ∷ 412 ∷ 413
    ∷ 414 ∷ 415 ∷ 444 ∷ 445 ∷ 446 ∷ 447 ∷ 476 ∷ 477 ∷ 478 ∷ 479 ∷ 508 ∷ 509 ∷ 510 ∷ 511 ∷ 512 ∷ 513
    ∷ 514 ∷ 515 ∷ 544 ∷ 545 ∷ 546 ∷ 547 ∷ 576 ∷ 577 ∷ 578 ∷ 579 ∷ 608 ∷ 609 ∷ 610 ∷ 611 ∷ 516 ∷ 517
    ∷ 518 ∷ 519 ∷ 548 ∷ 549 ∷ 550 ∷ 551 ∷ 580 ∷ 581 ∷ 582 ∷ 583 ∷ 612 ∷ 613 ∷ 614 ∷ 615 ∷ 520 ∷ 521
    ∷ 522 ∷ 523 ∷ 552 ∷ 553 ∷ 554 ∷ 555 ∷ 584 ∷ 585 ∷ 586 ∷ 587 ∷ 616 ∷ 617 ∷ 618 ∷ 619 ∷ 524 ∷ 525
    ∷ 526 ∷ 527 ∷ 556 ∷ 557 ∷ 558 ∷ 559 ∷ 588 ∷ 589 ∷ 590 ∷ 591 ∷ 620 ∷ 621 ∷ 622 ∷ 623 ∷ 528 ∷ 529
    ∷ 530 ∷ 531 ∷ 560 ∷ 561 ∷ 562 ∷ 563 ∷ 592 ∷ 593 ∷ 594 ∷ 595 ∷ 624 ∷ 625 ∷ 626 ∷ 627 ∷ 532 ∷ 533
    ∷ 534 ∷ 535 ∷ 564 ∷ 565 ∷ 566 ∷ 567 ∷ 596 ∷ 597 ∷ 598 ∷ 599 ∷ 628 ∷ 629 ∷ 630 ∷ 631 ∷ 536 ∷ 537
    ∷ 538 ∷ 539 ∷ 568 ∷ 569 ∷ 570 ∷ 571 ∷ 600 ∷ 601 ∷ 602 ∷ 603 ∷ 632 ∷ 633 ∷ 634 ∷ 635 ∷ 540 ∷ 541
    ∷ 542 ∷ 543 ∷ 572 ∷ 573 ∷ 574 ∷ 575 ∷ 604 ∷ 605 ∷ 606 ∷ 607 ∷ 636 ∷ 637 ∷ 638 ∷ 639 ∷ 640 ∷ 641
    ∷ 642 ∷ 643 ∷ 672 ∷ 673 ∷ 674 ∷ 675 ∷ 704 ∷ 705 ∷ 706 ∷ 707 ∷ 736 ∷ 737 ∷ 738 ∷ 739 ∷ 644 ∷ 645
    ∷ 646 ∷ 647 ∷ 676 ∷ 677 ∷ 678 ∷ 679 ∷ 708 ∷ 709 ∷ 710 ∷ 711 ∷ 740 ∷ 741 ∷ 742 ∷ 743 ∷ 648 ∷ 649
    ∷ 650 ∷ 651 ∷ 680 ∷ 681 ∷ 682 ∷ 683 ∷ 712 ∷ 713 ∷ 714 ∷ 715 ∷ 744 ∷ 745 ∷ 746 ∷ 747 ∷ 652 ∷ 653
    ∷ 654 ∷ 655 ∷ 684 ∷ 685 ∷ 686 ∷ 687 ∷ 716 ∷ 717 ∷ 718 ∷ 719 ∷ 748 ∷ 749 ∷ 750 ∷ 751 ∷ 656 ∷ 657
    ∷ 658 ∷ 659 ∷ 688 ∷ 689 ∷ 690 ∷ 691 ∷ 720 ∷ 721 ∷ 722 ∷ 723 ∷ 752 ∷ 753 ∷ 754 ∷ 755 ∷ 660 ∷ 661
    ∷ 662 ∷ 663 ∷ 692 ∷ 693 ∷ 694 ∷ 695 ∷ 724 ∷ 725 ∷ 726 ∷ 727 ∷ 756 ∷ 757 ∷ 758 ∷ 759 ∷ 664 ∷ 665
    ∷ 666 ∷ 667 ∷ 696 ∷ 697 ∷ 698 ∷ 699 ∷ 728 ∷ 729 ∷ 730 ∷ 731 ∷ 760 ∷ 761 ∷ 762 ∷ 763 ∷ 668 ∷ 669
    ∷ 670 ∷ 671 ∷ 700 ∷ 701 ∷ 702 ∷ 703 ∷ 732 ∷ 733 ∷ 734 ∷ 735 ∷ 764 ∷ 765 ∷ 766 ∷ 767 ∷ 768 ∷ 769
    ∷ 770 ∷ 771 ∷ 800 ∷ 801 ∷ 802 ∷ 803 ∷ 832 ∷ 833 ∷ 834 ∷ 835 ∷ 864 ∷ 865 ∷ 866 ∷ 867 ∷ 772 ∷ 773
    ∷ 774 ∷ 775 ∷ 804 ∷ 805 ∷ 806 ∷ 807 ∷ 836 ∷ 837 ∷ 838 ∷ 839 ∷ 868 ∷ 869 ∷ 870 ∷ 871 ∷ 776 ∷ 777
    ∷ 778 ∷ 779 ∷ 808 ∷ 809 ∷ 810 ∷ 811 ∷ 840 ∷ 841 ∷ 842 ∷ 843 ∷ 872 ∷ 873 ∷ 874 ∷ 875 ∷ 780 ∷ 781
    ∷ 782 ∷ 783 ∷ 812 ∷ 813 ∷ 814 ∷ 815 ∷ 844 ∷ 845 ∷ 846 ∷ 847 ∷ 876 ∷ 877 ∷ 878 ∷ 879 ∷ 784 ∷ 785
    ∷ 786 ∷ 787 ∷ 816 ∷ 817 ∷ 818 ∷ 819 ∷ 848 ∷ 849 ∷ 850 ∷ 851 ∷ 880 ∷ 881 ∷ 882 ∷ 883 ∷ 788 ∷ 789
    ∷ 790 ∷ 791 ∷ 820 ∷ 821 ∷ 822 ∷ 823 ∷ 852 ∷ 853 ∷ 854 ∷ 855 ∷ 884 ∷ 885 ∷ 886 ∷ 887 ∷ 792 ∷ 793
    ∷ 794 ∷ 795 ∷ 824 ∷ 825 ∷ 826 ∷ 827 ∷ 856 ∷ 857 ∷ 858 ∷ 859 ∷ 888 ∷ 889 ∷ 890 ∷ 891 ∷ 796 ∷ 797
    ∷ 798 ∷ 799 ∷ 828 ∷ 829 ∷ 830 ∷ 831 ∷ 860 ∷ 861 ∷ 862 ∷ 863 ∷ 892 ∷ 893 ∷ 894 ∷ 895 ∷ 896 ∷ 897
    ∷ 898 ∷ 899 ∷ 928 ∷ 929 ∷ 930 ∷ 931 ∷ 960 ∷ 961 ∷ 962 ∷ 963 ∷ 992 ∷ 993 ∷ 994 ∷ 995 ∷ 900 ∷ 901
    ∷ 902 ∷ 903 ∷ 932 ∷ 933 ∷ 934 ∷ 935 ∷ 964 ∷ 965 ∷ 966 ∷ 967 ∷ 996 ∷ 997 ∷ 998 ∷ 999 ∷ 904 ∷ 905
    ∷ 906 ∷ 907 ∷ 936 ∷ 937 ∷ 938 ∷ 939 ∷ 968 ∷ 969 ∷ 970 ∷ 971 ∷ 1000 ∷ 1001 ∷ 1002 ∷ 1003 ∷ 908
    ∷ 909 ∷ 910 ∷ 911 ∷ 940 ∷ 941 ∷ 942 ∷ 943 ∷ 972 ∷ 973 ∷ 974 ∷ 975 ∷ 1004 ∷ 1005 ∷ 1006 ∷ 1007
    ∷ 912 ∷ 913 ∷ 914 ∷ 915 ∷ 944 ∷ 945 ∷ 946 ∷ 947 ∷ 976 ∷ 977 ∷ 978 ∷ 979 ∷ 1008 ∷ 1009 ∷ 1010
    ∷ 1011 ∷ 916 ∷ 917 ∷ 918 ∷ 919 ∷ 948 ∷ 949 ∷ 950 ∷ 951 ∷ 980 ∷ 981 ∷ 982 ∷ 983 ∷ 1012 ∷ 1013
    ∷ 1014 ∷ 1015 ∷ 920 ∷ 921 ∷ 922 ∷ 923 ∷ 952 ∷ 953 ∷ 954 ∷ 955 ∷ 984 ∷ 985 ∷ 986 ∷ 987 ∷ 1016
    ∷ 1017 ∷ 1018 ∷ 1019 ∷ 924 ∷ 925 ∷ 926 ∷ 927 ∷ 956 ∷ 957 ∷ 958 ∷ 959 ∷ 988 ∷ 989 ∷ 990 ∷ 991
    ∷ 1020 ∷ 1021 ∷ 1022 ∷ 1023 ∷ []
scan_idx_32 (suc (suc zero)) =
    0 ∷ 32 ∷ 64 ∷ 96 ∷ 1 ∷ 33 ∷ 65 ∷ 97 ∷ 2 ∷ 34 ∷ 66 ∷ 98 ∷ 3 ∷ 35 ∷ 67 ∷ 99 ∷ 128 ∷ 160 ∷ 192
    ∷ 224 ∷ 129 ∷ 161 ∷ 193 ∷ 225 ∷ 130 ∷ 162 ∷ 194 ∷ 226 ∷ 131 ∷ 163 ∷ 195 ∷ 227 ∷ 256 ∷ 288 ∷ 320
    ∷ 352 ∷ 257 ∷ 289 ∷ 321 ∷ 353 ∷ 258 ∷ 290 ∷ 322 ∷ 354 ∷ 259 ∷ 291 ∷ 323 ∷ 355 ∷ 384 ∷ 416 ∷ 448
    ∷ 480 ∷ 385 ∷ 417 ∷ 449 ∷ 481 ∷ 386 ∷ 418 ∷ 450 ∷ 482 ∷ 387 ∷ 419 ∷ 451 ∷ 483 ∷ 512 ∷ 544 ∷ 576
    ∷ 608 ∷ 513 ∷ 545 ∷ 577 ∷ 609 ∷ 514 ∷ 546 ∷ 578 ∷ 610 ∷ 515 ∷ 547 ∷ 579 ∷ 611 ∷ 640 ∷ 672 ∷ 704
    ∷ 736 ∷ 641 ∷ 673 ∷ 705 ∷ 737 ∷ 642 ∷ 674 ∷ 706 ∷ 738 ∷ 643 ∷ 675 ∷ 707 ∷ 739 ∷ 768 ∷ 800 ∷ 832
    ∷ 864 ∷ 769 ∷ 801 ∷ 833 ∷ 865 ∷ 770 ∷ 802 ∷ 834 ∷ 866 ∷ 771 ∷ 803 ∷ 835 ∷ 867 ∷ 896 ∷ 928 ∷ 960
    ∷ 992 ∷ 897 ∷ 929 ∷ 961 ∷ 993 ∷ 898 ∷ 930 ∷ 962 ∷ 994 ∷ 899 ∷ 931 ∷ 963 ∷ 995 ∷ 4 ∷ 36 ∷ 68
    ∷ 100 ∷ 5 ∷ 37 ∷ 69 ∷ 101 ∷ 6 ∷ 38 ∷ 70 ∷ 102 ∷ 7 ∷ 39 ∷ 71 ∷ 103 ∷ 132 ∷ 164 ∷ 196 ∷ 228 ∷ 133
    ∷ 165 ∷ 197 ∷ 229 ∷ 134 ∷ 166 ∷ 198 ∷ 230 ∷ 135 ∷ 167 ∷ 199 ∷ 231 ∷ 260 ∷ 292 ∷ 324 ∷ 356 ∷ 261
    ∷ 293 ∷ 325 ∷ 357 ∷ 262 ∷ 294 ∷ 326 ∷ 358 ∷ 263 ∷ 295 ∷ 327 ∷ 359 ∷ 388 ∷ 420 ∷ 452 ∷ 484 ∷ 389
    ∷ 421 ∷ 453 ∷ 485 ∷ 390 ∷ 422 ∷ 454 ∷ 486 ∷ 391 ∷ 423 ∷ 455 ∷ 487 ∷ 516 ∷ 548 ∷ 580 ∷ 612 ∷ 517
    ∷ 549 ∷ 581 ∷ 613 ∷ 518 ∷ 550 ∷ 582 ∷ 614 ∷ 519 ∷ 551 ∷ 583 ∷ 615 ∷ 644 ∷ 676 ∷ 708 ∷ 740 ∷ 645
    ∷ 677 ∷ 709 ∷ 741 ∷ 646 ∷ 678 ∷ 710 ∷ 742 ∷ 647 ∷ 679 ∷ 711 ∷ 743 ∷ 772 ∷ 804 ∷ 836 ∷ 868 ∷ 773
    ∷ 805 ∷ 837 ∷ 869 ∷ 774 ∷ 806 ∷ 838 ∷ 870 ∷ 775 ∷ 807 ∷ 839 ∷ 871 ∷ 900 ∷ 932 ∷ 964 ∷ 996 ∷ 901
    ∷ 933 ∷ 965 ∷ 997 ∷ 902 ∷ 934 ∷ 966 ∷ 998 ∷ 903 ∷ 935 ∷ 967 ∷ 999 ∷ 8 ∷ 40 ∷ 72 ∷ 104 ∷ 9 ∷ 41
    ∷ 73 ∷ 105 ∷ 10 ∷ 42 ∷ 74 ∷ 106 ∷ 11 ∷ 43 ∷ 75 ∷ 107 ∷ 136 ∷ 168 ∷ 200 ∷ 232 ∷ 137 ∷ 169 ∷ 201
    ∷ 233 ∷ 138 ∷ 170 ∷ 202 ∷ 234 ∷ 139 ∷ 171 ∷ 203 ∷ 235 ∷ 264 ∷ 296 ∷ 328 ∷ 360 ∷ 265 ∷ 297 ∷ 329
    ∷ 361 ∷ 266 ∷ 298 ∷ 330 ∷ 362 ∷ 267 ∷ 299 ∷ 331 ∷ 363 ∷ 392 ∷ 424 ∷ 456 ∷ 488 ∷ 393 ∷ 425 ∷ 457
    ∷ 489 ∷ 394 ∷ 426 ∷ 458 ∷ 490 ∷ 395 ∷ 427 ∷ 459 ∷ 491 ∷ 520 ∷ 552 ∷ 584 ∷ 616 ∷ 521 ∷ 553 ∷ 585
    ∷ 617 ∷ 522 ∷ 554 ∷ 586 ∷ 618 ∷ 523 ∷ 555 ∷ 587 ∷ 619 ∷ 648 ∷ 680 ∷ 712 ∷ 744 ∷ 649 ∷ 681 ∷ 713
    ∷ 745 ∷ 650 ∷ 682 ∷ 714 ∷ 746 ∷ 651 ∷ 683 ∷ 715 ∷ 747 ∷ 776 ∷ 808 ∷ 840 ∷ 872 ∷ 777 ∷ 809 ∷ 841
    ∷ 873 ∷ 778 ∷ 810 ∷ 842 ∷ 874 ∷ 779 ∷ 811 ∷ 843 ∷ 875 ∷ 904 ∷ 936 ∷ 968 ∷ 1000 ∷ 905 ∷ 937 ∷ 969
    ∷ 1001 ∷ 906 ∷ 938 ∷ 970 ∷ 1002 ∷ 907 ∷ 939 ∷ 971 ∷ 1003 ∷ 12 ∷ 44 ∷ 76 ∷ 108 ∷ 13 ∷ 45 ∷ 77
    ∷ 109 ∷ 14 ∷ 46 ∷ 78 ∷ 110 ∷ 15 ∷ 47 ∷ 79 ∷ 111 ∷ 140 ∷ 172 ∷ 204 ∷ 236 ∷ 141 ∷ 173 ∷ 205 ∷ 237
    ∷ 142 ∷ 174 ∷ 206 ∷ 238 ∷ 143 ∷ 175 ∷ 207 ∷ 239 ∷ 268 ∷ 300 ∷ 332 ∷ 364 ∷ 269 ∷ 301 ∷ 333 ∷ 365
    ∷ 270 ∷ 302 ∷ 334 ∷ 366 ∷ 271 ∷ 303 ∷ 335 ∷ 367 ∷ 396 ∷ 428 ∷ 460 ∷ 492 ∷ 397 ∷ 429 ∷ 461 ∷ 493
    ∷ 398 ∷ 430 ∷ 462 ∷ 494 ∷ 399 ∷ 431 ∷ 463 ∷ 495 ∷ 524 ∷ 556 ∷ 588 ∷ 620 ∷ 525 ∷ 557 ∷ 589 ∷ 621
    ∷ 526 ∷ 558 ∷ 590 ∷ 622 ∷ 527 ∷ 559 ∷ 591 ∷ 623 ∷ 652 ∷ 684 ∷ 716 ∷ 748 ∷ 653 ∷ 685 ∷ 717 ∷ 749
    ∷ 654 ∷ 686 ∷ 718 ∷ 750 ∷ 655 ∷ 687 ∷ 719 ∷ 751 ∷ 780 ∷ 812 ∷ 844 ∷ 876 ∷ 781 ∷ 813 ∷ 845 ∷ 877
    ∷ 782 ∷ 814 ∷ 846 ∷ 878 ∷ 783 ∷ 815 ∷ 847 ∷ 879 ∷ 908 ∷ 940 ∷ 972 ∷ 1004 ∷ 909 ∷ 941 ∷ 973
    ∷ 1005 ∷ 910 ∷ 942 ∷ 974 ∷ 1006 ∷ 911 ∷ 943 ∷ 975 ∷ 1007 ∷ 16 ∷ 48 ∷ 80 ∷ 112 ∷ 17 ∷ 49 ∷ 81
    ∷ 113 ∷ 18 ∷ 50 ∷ 82 ∷ 114 ∷ 19 ∷ 51 ∷ 83 ∷ 115 ∷ 144 ∷ 176 ∷ 208 ∷ 240 ∷ 145 ∷ 177 ∷ 209 ∷ 241
    ∷ 146 ∷ 178 ∷ 210 ∷ 242 ∷ 147 ∷ 179 ∷ 211 ∷ 243 ∷ 272 ∷ 304 ∷ 336 ∷ 368 ∷ 273 ∷ 305 ∷ 337 ∷ 369
    ∷ 274 ∷ 306 ∷ 338 ∷ 370 ∷ 275 ∷ 307 ∷ 339 ∷ 371 ∷ 400 ∷ 432 ∷ 464 ∷ 496 ∷ 401 ∷ 433 ∷ 465 ∷ 497
    ∷ 402 ∷ 434 ∷ 466 ∷ 498 ∷ 403 ∷ 435 ∷ 467 ∷ 499 ∷ 528 ∷ 560 ∷ 592 ∷ 624 ∷ 529 ∷ 561 ∷ 593 ∷ 625
    ∷ 530 ∷ 562 ∷ 594 ∷ 626 ∷ 531 ∷ 563 ∷ 595 ∷ 627 ∷ 656 ∷ 688 ∷ 720 ∷ 752 ∷ 657 ∷ 689 ∷ 721 ∷ 753
    ∷ 658 ∷ 690 ∷ 722 ∷ 754 ∷ 659 ∷ 691 ∷ 723 ∷ 755 ∷ 784 ∷ 816 ∷ 848 ∷ 880 ∷ 785 ∷ 817 ∷ 849 ∷ 881
    ∷ 786 ∷ 818 ∷ 850 ∷ 882 ∷ 787 ∷ 819 ∷ 851 ∷ 883 ∷ 912 ∷ 944 ∷ 976 ∷ 1008 ∷ 913 ∷ 945 ∷ 977
    ∷ 1009 ∷ 914 ∷ 946 ∷ 978 ∷ 1010 ∷ 915 ∷ 947 ∷ 979 ∷ 1011 ∷ 20 ∷ 52 ∷ 84 ∷ 116 ∷ 21 ∷ 53 ∷ 85
    ∷ 117 ∷ 22 ∷ 54 ∷ 86 ∷ 118 ∷ 23 ∷ 55 ∷ 87 ∷ 119 ∷ 148 ∷ 180 ∷ 212 ∷ 244 ∷ 149 ∷ 181 ∷ 213 ∷ 245
    ∷ 150 ∷ 182 ∷ 214 ∷ 246 ∷ 151 ∷ 183 ∷ 215 ∷ 247 ∷ 276 ∷ 308 ∷ 340 ∷ 372 ∷ 277 ∷ 309 ∷ 341 ∷ 373
    ∷ 278 ∷ 310 ∷ 342 ∷ 374 ∷ 279 ∷ 311 ∷ 343 ∷ 375 ∷ 404 ∷ 436 ∷ 468 ∷ 500 ∷ 405 ∷ 437 ∷ 469 ∷ 501
    ∷ 406 ∷ 438 ∷ 470 ∷ 502 ∷ 407 ∷ 439 ∷ 471 ∷ 503 ∷ 532 ∷ 564 ∷ 596 ∷ 628 ∷ 533 ∷ 565 ∷ 597 ∷ 629
    ∷ 534 ∷ 566 ∷ 598 ∷ 630 ∷ 535 ∷ 567 ∷ 599 ∷ 631 ∷ 660 ∷ 692 ∷ 724 ∷ 756 ∷ 661 ∷ 693 ∷ 725 ∷ 757
    ∷ 662 ∷ 694 ∷ 726 ∷ 758 ∷ 663 ∷ 695 ∷ 727 ∷ 759 ∷ 788 ∷ 820 ∷ 852 ∷ 884 ∷ 789 ∷ 821 ∷ 853 ∷ 885
    ∷ 790 ∷ 822 ∷ 854 ∷ 886 ∷ 791 ∷ 823 ∷ 855 ∷ 887 ∷ 916 ∷ 948 ∷ 980 ∷ 1012 ∷ 917 ∷ 949 ∷ 981
    ∷ 1013 ∷ 918 ∷ 950 ∷ 982 ∷ 1014 ∷ 919 ∷ 951 ∷ 983 ∷ 1015 ∷ 24 ∷ 56 ∷ 88 ∷ 120 ∷ 25 ∷ 57 ∷ 89
    ∷ 121 ∷ 26 ∷ 58 ∷ 90 ∷ 122 ∷ 27 ∷ 59 ∷ 91 ∷ 123 ∷ 152 ∷ 184 ∷ 216 ∷ 248 ∷ 153 ∷ 185 ∷ 217 ∷ 249
    ∷ 154 ∷ 186 ∷ 218 ∷ 250 ∷ 155 ∷ 187 ∷ 219 ∷ 251 ∷ 280 ∷ 312 ∷ 344 ∷ 376 ∷ 281 ∷ 313 ∷ 345 ∷ 377
    ∷ 282 ∷ 314 ∷ 346 ∷ 378 ∷ 283 ∷ 315 ∷ 347 ∷ 379 ∷ 408 ∷ 440 ∷ 472 ∷ 504 ∷ 409 ∷ 441 ∷ 473 ∷ 505
    ∷ 410 ∷ 442 ∷ 474 ∷ 506 ∷ 411 ∷ 443 ∷ 475 ∷ 507 ∷ 536 ∷ 568 ∷ 600 ∷ 632 ∷ 537 ∷ 569 ∷ 601 ∷ 633
    ∷ 538 ∷ 570 ∷ 602 ∷ 634 ∷ 539 ∷ 571 ∷ 603 ∷ 635 ∷ 664 ∷ 696 ∷ 728 ∷ 760 ∷ 665 ∷ 697 ∷ 729 ∷ 761
    ∷ 666 ∷ 698 ∷ 730 ∷ 762 ∷ 667 ∷ 699 ∷ 731 ∷ 763 ∷ 792 ∷ 824 ∷ 856 ∷ 888 ∷ 793 ∷ 825 ∷ 857 ∷ 889
    ∷ 794 ∷ 826 ∷ 858 ∷ 890 ∷ 795 ∷ 827 ∷ 859 ∷ 891 ∷ 920 ∷ 952 ∷ 984 ∷ 1016 ∷ 921 ∷ 953 ∷ 985
    ∷ 1017 ∷ 922 ∷ 954 ∷ 986 ∷ 1018 ∷ 923 ∷ 955 ∷ 987 ∷ 1019 ∷ 28 ∷ 60 ∷ 92 ∷ 124 ∷ 29 ∷ 61 ∷ 93
    ∷ 125 ∷ 30 ∷ 62 ∷ 94 ∷ 126 ∷ 31 ∷ 63 ∷ 95 ∷ 127 ∷ 156 ∷ 188 ∷ 220 ∷ 252 ∷ 157 ∷ 189 ∷ 221 ∷ 253
    ∷ 158 ∷ 190 ∷ 222 ∷ 254 ∷ 159 ∷ 191 ∷ 223 ∷ 255 ∷ 284 ∷ 316 ∷ 348 ∷ 380 ∷ 285 ∷ 317 ∷ 349 ∷ 381
    ∷ 286 ∷ 318 ∷ 350 ∷ 382 ∷ 287 ∷ 319 ∷ 351 ∷ 383 ∷ 412 ∷ 444 ∷ 476 ∷ 508 ∷ 413 ∷ 445 ∷ 477 ∷ 509
    ∷ 414 ∷ 446 ∷ 478 ∷ 510 ∷ 415 ∷ 447 ∷ 479 ∷ 511 ∷ 540 ∷ 572 ∷ 604 ∷ 636 ∷ 541 ∷ 573 ∷ 605 ∷ 637
    ∷ 542 ∷ 574 ∷ 606 ∷ 638 ∷ 543 ∷ 575 ∷ 607 ∷ 639 ∷ 668 ∷ 700 ∷ 732 ∷ 764 ∷ 669 ∷ 701 ∷ 733 ∷ 765
    ∷ 670 ∷ 702 ∷ 734 ∷ 766 ∷ 671 ∷ 703 ∷ 735 ∷ 767 ∷ 796 ∷ 828 ∷ 860 ∷ 892 ∷ 797 ∷ 829 ∷ 861 ∷ 893
    ∷ 798 ∷ 830 ∷ 862 ∷ 894 ∷ 799 ∷ 831 ∷ 863 ∷ 895 ∷ 924 ∷ 956 ∷ 988 ∷ 1020 ∷ 925 ∷ 957 ∷ 989
    ∷ 1021 ∷ 926 ∷ 958 ∷ 990 ∷ 1022 ∷ 927 ∷ 959 ∷ 991 ∷ 1023 ∷ []
scan_idx_32 (suc (suc (suc scan_idx))) =
    0 ∷ 32 ∷ 1 ∷ 64 ∷ 33 ∷ 2 ∷ 96 ∷ 65 ∷ 34 ∷ 3 ∷ 97 ∷ 66 ∷ 35 ∷ 98 ∷ 67 ∷ 99 ∷ 128 ∷ 160 ∷ 129
    ∷ 192 ∷ 161 ∷ 130 ∷ 224 ∷ 193 ∷ 162 ∷ 131 ∷ 225 ∷ 194 ∷ 163 ∷ 226 ∷ 195 ∷ 227 ∷ 4 ∷ 36 ∷ 5 ∷ 68
    ∷ 37 ∷ 6 ∷ 100 ∷ 69 ∷ 38 ∷ 7 ∷ 101 ∷ 70 ∷ 39 ∷ 102 ∷ 71 ∷ 103 ∷ 256 ∷ 288 ∷ 257 ∷ 320 ∷ 289
    ∷ 258 ∷ 352 ∷ 321 ∷ 290 ∷ 259 ∷ 353 ∷ 322 ∷ 291 ∷ 354 ∷ 323 ∷ 355 ∷ 132 ∷ 164 ∷ 133 ∷ 196 ∷ 165
    ∷ 134 ∷ 228 ∷ 197 ∷ 166 ∷ 135 ∷ 229 ∷ 198 ∷ 167 ∷ 230 ∷ 199 ∷ 231 ∷ 8 ∷ 40 ∷ 9 ∷ 72 ∷ 41 ∷ 10
    ∷ 104 ∷ 73 ∷ 42 ∷ 11 ∷ 105 ∷ 74 ∷ 43 ∷ 106 ∷ 75 ∷ 107 ∷ 384 ∷ 416 ∷ 385 ∷ 448 ∷ 417 ∷ 386 ∷ 480
    ∷ 449 ∷ 418 ∷ 387 ∷ 481 ∷ 450 ∷ 419 ∷ 482 ∷ 451 ∷ 483 ∷ 260 ∷ 292 ∷ 261 ∷ 324 ∷ 293 ∷ 262 ∷ 356
    ∷ 325 ∷ 294 ∷ 263 ∷ 357 ∷ 326 ∷ 295 ∷ 358 ∷ 327 ∷ 359 ∷ 136 ∷ 168 ∷ 137 ∷ 200 ∷ 169 ∷ 138 ∷ 232
    ∷ 201 ∷ 170 ∷ 139 ∷ 233 ∷ 202 ∷ 171 ∷ 234 ∷ 203 ∷ 235 ∷ 12 ∷ 44 ∷ 13 ∷ 76 ∷ 45 ∷ 14 ∷ 108 ∷ 77
    ∷ 46 ∷ 15 ∷ 109 ∷ 78 ∷ 47 ∷ 110 ∷ 79 ∷ 111 ∷ 512 ∷ 544 ∷ 513 ∷ 576 ∷ 545 ∷ 514 ∷ 608 ∷ 577 ∷ 546
    ∷ 515 ∷ 609 ∷ 578 ∷ 547 ∷ 610 ∷ 579 ∷ 611 ∷ 388 ∷ 420 ∷ 389 ∷ 452 ∷ 421 ∷ 390 ∷ 484 ∷ 453 ∷ 422
    ∷ 391 ∷ 485 ∷ 454 ∷ 423 ∷ 486 ∷ 455 ∷ 487 ∷ 264 ∷ 296 ∷ 265 ∷ 328 ∷ 297 ∷ 266 ∷ 360 ∷ 329 ∷ 298
    ∷ 267 ∷ 361 ∷ 330 ∷ 299 ∷ 362 ∷ 331 ∷ 363 ∷ 140 ∷ 172 ∷ 141 ∷ 204 ∷ 173 ∷ 142 ∷ 236 ∷ 205 ∷ 174
    ∷ 143 ∷ 237 ∷ 206 ∷ 175 ∷ 238 ∷ 207 ∷ 239 ∷ 16 ∷ 48 ∷ 17 ∷ 80 ∷ 49 ∷ 18 ∷ 112 ∷ 81 ∷ 50 ∷ 19
    ∷ 113 ∷ 82 ∷ 51 ∷ 114 ∷ 83 ∷ 115 ∷ 640 ∷ 672 ∷ 641 ∷ 704 ∷ 673 ∷ 642 ∷ 736 ∷ 705 ∷ 674 ∷ 643
    ∷ 737 ∷ 706 ∷ 675 ∷ 738 ∷ 707 ∷ 739 ∷ 516 ∷ 548 ∷ 517 ∷ 580 ∷ 549 ∷ 518 ∷ 612 ∷ 581 ∷ 550 ∷ 519
    ∷ 613 ∷ 582 ∷ 551 ∷ 614 ∷ 583 ∷ 615 ∷ 392 ∷ 424 ∷ 393 ∷ 456 ∷ 425 ∷ 394 ∷ 488 ∷ 457 ∷ 426 ∷ 395
    ∷ 489 ∷ 458 ∷ 427 ∷ 490 ∷ 459 ∷ 491 ∷ 268 ∷ 300 ∷ 269 ∷ 332 ∷ 301 ∷ 270 ∷ 364 ∷ 333 ∷ 302 ∷ 271
    ∷ 365 ∷ 334 ∷ 303 ∷ 366 ∷ 335 ∷ 367 ∷ 144 ∷ 176 ∷ 145 ∷ 208 ∷ 177 ∷ 146 ∷ 240 ∷ 209 ∷ 178 ∷ 147
    ∷ 241 ∷ 210 ∷ 179 ∷ 242 ∷ 211 ∷ 243 ∷ 20 ∷ 52 ∷ 21 ∷ 84 ∷ 53 ∷ 22 ∷ 116 ∷ 85 ∷ 54 ∷ 23 ∷ 117
    ∷ 86 ∷ 55 ∷ 118 ∷ 87 ∷ 119 ∷ 768 ∷ 800 ∷ 769 ∷ 832 ∷ 801 ∷ 770 ∷ 864 ∷ 833 ∷ 802 ∷ 771 ∷ 865
    ∷ 834 ∷ 803 ∷ 866 ∷ 835 ∷ 867 ∷ 644 ∷ 676 ∷ 645 ∷ 708 ∷ 677 ∷ 646 ∷ 740 ∷ 709 ∷ 678 ∷ 647 ∷ 741
    ∷ 710 ∷ 679 ∷ 742 ∷ 711 ∷ 743 ∷ 520 ∷ 552 ∷ 521 ∷ 584 ∷ 553 ∷ 522 ∷ 616 ∷ 585 ∷ 554 ∷ 523 ∷ 617
    ∷ 586 ∷ 555 ∷ 618 ∷ 587 ∷ 619 ∷ 396 ∷ 428 ∷ 397 ∷ 460 ∷ 429 ∷ 398 ∷ 492 ∷ 461 ∷ 430 ∷ 399 ∷ 493
    ∷ 462 ∷ 431 ∷ 494 ∷ 463 ∷ 495 ∷ 272 ∷ 304 ∷ 273 ∷ 336 ∷ 305 ∷ 274 ∷ 368 ∷ 337 ∷ 306 ∷ 275 ∷ 369
    ∷ 338 ∷ 307 ∷ 370 ∷ 339 ∷ 371 ∷ 148 ∷ 180 ∷ 149 ∷ 212 ∷ 181 ∷ 150 ∷ 244 ∷ 213 ∷ 182 ∷ 151 ∷ 245
    ∷ 214 ∷ 183 ∷ 246 ∷ 215 ∷ 247 ∷ 24 ∷ 56 ∷ 25 ∷ 88 ∷ 57 ∷ 26 ∷ 120 ∷ 89 ∷ 58 ∷ 27 ∷ 121 ∷ 90 ∷ 59
    ∷ 122 ∷ 91 ∷ 123 ∷ 896 ∷ 928 ∷ 897 ∷ 960 ∷ 929 ∷ 898 ∷ 992 ∷ 961 ∷ 930 ∷ 899 ∷ 993 ∷ 962 ∷ 931
    ∷ 994 ∷ 963 ∷ 995 ∷ 772 ∷ 804 ∷ 773 ∷ 836 ∷ 805 ∷ 774 ∷ 868 ∷ 837 ∷ 806 ∷ 775 ∷ 869 ∷ 838 ∷ 807
    ∷ 870 ∷ 839 ∷ 871 ∷ 648 ∷ 680 ∷ 649 ∷ 712 ∷ 681 ∷ 650 ∷ 744 ∷ 713 ∷ 682 ∷ 651 ∷ 745 ∷ 714 ∷ 683
    ∷ 746 ∷ 715 ∷ 747 ∷ 524 ∷ 556 ∷ 525 ∷ 588 ∷ 557 ∷ 526 ∷ 620 ∷ 589 ∷ 558 ∷ 527 ∷ 621 ∷ 590 ∷ 559
    ∷ 622 ∷ 591 ∷ 623 ∷ 400 ∷ 432 ∷ 401 ∷ 464 ∷ 433 ∷ 402 ∷ 496 ∷ 465 ∷ 434 ∷ 403 ∷ 497 ∷ 466 ∷ 435
    ∷ 498 ∷ 467 ∷ 499 ∷ 276 ∷ 308 ∷ 277 ∷ 340 ∷ 309 ∷ 278 ∷ 372 ∷ 341 ∷ 310 ∷ 279 ∷ 373 ∷ 342 ∷ 311
    ∷ 374 ∷ 343 ∷ 375 ∷ 152 ∷ 184 ∷ 153 ∷ 216 ∷ 185 ∷ 154 ∷ 248 ∷ 217 ∷ 186 ∷ 155 ∷ 249 ∷ 218 ∷ 187
    ∷ 250 ∷ 219 ∷ 251 ∷ 28 ∷ 60 ∷ 29 ∷ 92 ∷ 61 ∷ 30 ∷ 124 ∷ 93 ∷ 62 ∷ 31 ∷ 125 ∷ 94 ∷ 63 ∷ 126 ∷ 95
    ∷ 127 ∷ 900 ∷ 932 ∷ 901 ∷ 964 ∷ 933 ∷ 902 ∷ 996 ∷ 965 ∷ 934 ∷ 903 ∷ 997 ∷ 966 ∷ 935 ∷ 998 ∷ 967
    ∷ 999 ∷ 776 ∷ 808 ∷ 777 ∷ 840 ∷ 809 ∷ 778 ∷ 872 ∷ 841 ∷ 810 ∷ 779 ∷ 873 ∷ 842 ∷ 811 ∷ 874 ∷ 843
    ∷ 875 ∷ 652 ∷ 684 ∷ 653 ∷ 716 ∷ 685 ∷ 654 ∷ 748 ∷ 717 ∷ 686 ∷ 655 ∷ 749 ∷ 718 ∷ 687 ∷ 750 ∷ 719
    ∷ 751 ∷ 528 ∷ 560 ∷ 529 ∷ 592 ∷ 561 ∷ 530 ∷ 624 ∷ 593 ∷ 562 ∷ 531 ∷ 625 ∷ 594 ∷ 563 ∷ 626 ∷ 595
    ∷ 627 ∷ 404 ∷ 436 ∷ 405 ∷ 468 ∷ 437 ∷ 406 ∷ 500 ∷ 469 ∷ 438 ∷ 407 ∷ 501 ∷ 470 ∷ 439 ∷ 502 ∷ 471
    ∷ 503 ∷ 280 ∷ 312 ∷ 281 ∷ 344 ∷ 313 ∷ 282 ∷ 376 ∷ 345 ∷ 314 ∷ 283 ∷ 377 ∷ 346 ∷ 315 ∷ 378 ∷ 347
    ∷ 379 ∷ 156 ∷ 188 ∷ 157 ∷ 220 ∷ 189 ∷ 158 ∷ 252 ∷ 221 ∷ 190 ∷ 159 ∷ 253 ∷ 222 ∷ 191 ∷ 254 ∷ 223
    ∷ 255 ∷ 904 ∷ 936 ∷ 905 ∷ 968 ∷ 937 ∷ 906 ∷ 1000 ∷ 969 ∷ 938 ∷ 907 ∷ 1001 ∷ 970 ∷ 939 ∷ 1002
    ∷ 971 ∷ 1003 ∷ 780 ∷ 812 ∷ 781 ∷ 844 ∷ 813 ∷ 782 ∷ 876 ∷ 845 ∷ 814 ∷ 783 ∷ 877 ∷ 846 ∷ 815 ∷ 878
    ∷ 847 ∷ 879 ∷ 656 ∷ 688 ∷ 657 ∷ 720 ∷ 689 ∷ 658 ∷ 752 ∷ 721 ∷ 690 ∷ 659 ∷ 753 ∷ 722 ∷ 691 ∷ 754
    ∷ 723 ∷ 755 ∷ 532 ∷ 564 ∷ 533 ∷ 596 ∷ 565 ∷ 534 ∷ 628 ∷ 597 ∷ 566 ∷ 535 ∷ 629 ∷ 598 ∷ 567 ∷ 630
    ∷ 599 ∷ 631 ∷ 408 ∷ 440 ∷ 409 ∷ 472 ∷ 441 ∷ 410 ∷ 504 ∷ 473 ∷ 442 ∷ 411 ∷ 505 ∷ 474 ∷ 443 ∷ 506
    ∷ 475 ∷ 507 ∷ 284 ∷ 316 ∷ 285 ∷ 348 ∷ 317 ∷ 286 ∷ 380 ∷ 349 ∷ 318 ∷ 287 ∷ 381 ∷ 350 ∷ 319 ∷ 382
    ∷ 351 ∷ 383 ∷ 908 ∷ 940 ∷ 909 ∷ 972 ∷ 941 ∷ 910 ∷ 1004 ∷ 973 ∷ 942 ∷ 911 ∷ 1005 ∷ 974 ∷ 943
    ∷ 1006 ∷ 975 ∷ 1007 ∷ 784 ∷ 816 ∷ 785 ∷ 848 ∷ 817 ∷ 786 ∷ 880 ∷ 849 ∷ 818 ∷ 787 ∷ 881 ∷ 850
    ∷ 819 ∷ 882 ∷ 851 ∷ 883 ∷ 660 ∷ 692 ∷ 661 ∷ 724 ∷ 693 ∷ 662 ∷ 756 ∷ 725 ∷ 694 ∷ 663 ∷ 757 ∷ 726
    ∷ 695 ∷ 758 ∷ 727 ∷ 759 ∷ 536 ∷ 568 ∷ 537 ∷ 600 ∷ 569 ∷ 538 ∷ 632 ∷ 601 ∷ 570 ∷ 539 ∷ 633 ∷ 602
    ∷ 571 ∷ 634 ∷ 603 ∷ 635 ∷ 412 ∷ 444 ∷ 413 ∷ 476 ∷ 445 ∷ 414 ∷ 508 ∷ 477 ∷ 446 ∷ 415 ∷ 509 ∷ 478
    ∷ 447 ∷ 510 ∷ 479 ∷ 511 ∷ 912 ∷ 944 ∷ 913 ∷ 976 ∷ 945 ∷ 914 ∷ 1008 ∷ 977 ∷ 946 ∷ 915 ∷ 1009
    ∷ 978 ∷ 947 ∷ 1010 ∷ 979 ∷ 1011 ∷ 788 ∷ 820 ∷ 789 ∷ 852 ∷ 821 ∷ 790 ∷ 884 ∷ 853 ∷ 822 ∷ 791
    ∷ 885 ∷ 854 ∷ 823 ∷ 886 ∷ 855 ∷ 887 ∷ 664 ∷ 696 ∷ 665 ∷ 728 ∷ 697 ∷ 666 ∷ 760 ∷ 729 ∷ 698 ∷ 667
    ∷ 761 ∷ 730 ∷ 699 ∷ 762 ∷ 731 ∷ 763 ∷ 540 ∷ 572 ∷ 541 ∷ 604 ∷ 573 ∷ 542 ∷ 636 ∷ 605 ∷ 574 ∷ 543
    ∷ 637 ∷ 606 ∷ 575 ∷ 638 ∷ 607 ∷ 639 ∷ 916 ∷ 948 ∷ 917 ∷ 980 ∷ 949 ∷ 918 ∷ 1012 ∷ 981 ∷ 950 ∷ 919
    ∷ 1013 ∷ 982 ∷ 951 ∷ 1014 ∷ 983 ∷ 1015 ∷ 792 ∷ 824 ∷ 793 ∷ 856 ∷ 825 ∷ 794 ∷ 888 ∷ 857 ∷ 826
    ∷ 795 ∷ 889 ∷ 858 ∷ 827 ∷ 890 ∷ 859 ∷ 891 ∷ 668 ∷ 700 ∷ 669 ∷ 732 ∷ 701 ∷ 670 ∷ 764 ∷ 733 ∷ 702
    ∷ 671 ∷ 765 ∷ 734 ∷ 703 ∷ 766 ∷ 735 ∷ 767 ∷ 920 ∷ 952 ∷ 921 ∷ 984 ∷ 953 ∷ 922 ∷ 1016 ∷ 985 ∷ 954
    ∷ 923 ∷ 1017 ∷ 986 ∷ 955 ∷ 1018 ∷ 987 ∷ 1019 ∷ 796 ∷ 828 ∷ 797 ∷ 860 ∷ 829 ∷ 798 ∷ 892 ∷ 861
    ∷ 830 ∷ 799 ∷ 893 ∷ 862 ∷ 831 ∷ 894 ∷ 863 ∷ 895 ∷ 924 ∷ 956 ∷ 925 ∷ 988 ∷ 957 ∷ 926 ∷ 1020 ∷ 989
    ∷ 958 ∷ 927 ∷ 1021 ∷ 990 ∷ 959 ∷ 1022 ∷ 991 ∷ 1023 ∷ []
